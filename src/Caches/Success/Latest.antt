-- ===== src/Caches/Success/Latest.antt =====
-- ssrfguard/cache.go: a cache of successes stays within its bound, and serves the value that was last put
-- under a key.
use arcade.Prelude.{
  ℕ, ◌+◌, ◌≤◌, ◌≡◌, ◌⊎◌, refl, sym, ap, ◌∙◌, inl, inr, String, false, not, ◌&&◌, List, [], ◌∷◌,
  Option, none, some, arith, ◌==◌, string_eq, if◌then◌else◌, ltb, leb, length, Bool-cases,
  Option-cases, eq_cases, ltb-false→le,
}
use arcade.Prelude.Map.{
  lookup, insert, delete, member, lookup-insert, lookup-delete, length-insert-le, length-delete-le,
  length-insert-present,
}
use arcade.Caches.Success.{
  Entry, Entries, get_found, get, sweep, put_swept, put, Call, got, stored, run, latest,
}

-- The entries hold, of each key, what `wanted` does or nothing.
abbrev Within : (String → Option Entry) → Entries → Type 0
Within wanted entries =
    (key : String) → (lookup key entries ≡ none) ⊎ (lookup key entries ≡ wanted key)

lookup-sweep :
    (now : ℕ) (visited : List (String × Entry)) (entries : Entries) (key : String)
    → (lookup key (sweep now visited entries) ≡ none)
      ⊎ (lookup key (sweep now visited entries) ≡ lookup key entries)
unfolding sweep
lookup-sweep now [] entries key = inr refl
lookup-sweep now ((k, e) ∷ visited) entries key = elim (Bool-cases (ltb e.expiry now)) [
  | inl f ↦ rw f (elim (lookup-sweep now visited (delete k entries) key) [
    | inl n ↦ inl n
    | inr n ↦ elim (Bool-cases (k == key)) [
      | inl q ↦ inl (ground (arith, n, lookup-delete k key entries))
      | inr q ↦ inr (ground (arith, n, lookup-delete k key entries))
    ]
  ])
  | inr f ↦ rw f (lookup-sweep now visited entries key)
]

length-sweep-le :
    (now : ℕ) (visited : List (String × Entry)) (entries : Entries)
    → length (sweep now visited entries) ≤ length entries
unfolding sweep
length-sweep-le now [] entries = omega arith
length-sweep-le now ((k, e) ∷ visited) entries = ground (
  arith,
  length-sweep-le now visited entries,
  length-sweep-le now visited (delete k entries),
  length-delete-le k entries,
)

module _ (ttl limit : ℕ) where
  length-put-le :
      (now at : ℕ) (key value : String) (entries : Entries)
      → length entries ≤ limit
      → length (put ttl limit now at key value entries) ≤ limit
  unfolding put put_swept
  length-put-le now at key value entries h =
      let e : Entry = record { value = value; expiry = at + ttl } in
      elim (Option-cases (lookup key entries)) [
        | inl q ↦ ground (
          arith,
          q,
          length-sweep-le now entries entries,
          length-insert-le key e (sweep now entries entries),
          length-insert-le key e entries,
        )
        | inr (w, q) ↦ ground (arith, q, length-insert-present key e w entries q)
      ]

  insert-Within :
      (wanted : String → Option Entry) (key : String) (e : Entry) (entries : Entries)
      → Within wanted entries
      → Within (λ k. if key == k then some e else wanted k) (insert key e entries)
  insert-Within wanted key e entries h k = elim (Bool-cases (key == k)) [
    | inl q ↦ inr (ground (arith, q, lookup-insert key k e entries))
    | inr q ↦ elim (h k) [
      | inl n ↦ inl (ground (arith, q, n, lookup-insert key k e entries))
      | inr n ↦ inr (ground (arith, q, n, lookup-insert key k e entries))
    ]
  ]

  -- Entries that have nothing under a key, whatever is wanted of it.
  drop-Within :
      (wanted : String → Option Entry) (key : String) (e : Entry) (entries : Entries)
      → lookup key entries ≡ none
      → Within wanted entries
      → Within (λ k. if key == k then some e else wanted k) entries
  drop-Within wanted key e entries q h k = elim (eq_cases key k) [
    | inl (b, x) ↦ inl (ap (λ z. lookup z entries) (sym x) ∙ q)
    | inr (b, x) ↦ rw b (h k)
  ]

  sweep-Within :
      (wanted : String → Option Entry) (now : ℕ) (entries : Entries)
      → Within wanted entries
      → Within wanted (sweep now entries entries)
  sweep-Within wanted now entries h k = elim (lookup-sweep now entries entries k) [
    | inl n ↦ inl n
    | inr n ↦ elim (h k) [ inl m ↦ inl (n ∙ m) | inr m ↦ inr (n ∙ m) ]
  ]

  sweep-none :
      (now : ℕ) (key : String) (entries : Entries)
      → lookup key entries ≡ none
      → lookup key (sweep now entries entries) ≡ none
  sweep-none now key entries q = elim (lookup-sweep now entries entries key) [
    | inl n ↦ n
    | inr n ↦ n ∙ q
  ]

  put_swept-Within :
      (wanted : String → Option Entry) (key : String) (e : Entry) (swept : Entries)
      → lookup key swept ≡ none
      → Within wanted swept
      → Within (λ k. if key == k then some e else wanted k) (put_swept limit key e swept)
  unfolding put_swept
  put_swept-Within wanted key e swept q h = elim (Bool-cases (leb limit (length swept))) [
    | inl f ↦ rw f (drop-Within wanted key e swept q h)
    | inr f ↦ rw f (insert-Within wanted key e swept h)
  ]

  put-Within :
      (wanted : String → Option Entry) (now at : ℕ) (key value : String) (entries : Entries)
      → Within wanted entries
      → Within
          (λ k. if key == k then some (record { value = value; expiry = at + ttl }) else wanted k)
          (put ttl limit now at key value entries)
  unfolding put
  put-Within wanted now at key value entries h =
      let e : Entry = record { value = value; expiry = at + ttl } in
      elim (Bool-cases (not (member key entries) && leb limit (length entries))) [
        | inl f ↦ rw f (
            put_swept-Within wanted key e (sweep now entries entries)
              (sweep-none now key entries (nothing (ground (arith, f))))
              (sweep-Within wanted now entries h))
        | inr f ↦ rw f (insert-Within wanted key e entries h)
      ]
    where
      nothing : member key entries ≡ false → lookup key entries ≡ none
      nothing n = ground (arith, n)

  delete-Within :
      (wanted : String → Option Entry) (key : String) (entries : Entries)
      → Within wanted entries
      → Within wanted (delete key entries)
  delete-Within wanted key entries h k = elim (eq_cases key k) [
    | inl (b, x) ↦ inl (ground (arith, b, lookup-delete key k entries))
    | inr (b, x) ↦ rw (lookup-delete key k entries, b) (h k)
  ]

  get_found-Within :
      (wanted : String → Option Entry) (now : ℕ) (key : String) (entries : Entries)
      (found : Option Entry)
      → Within wanted entries
      → Within wanted (get_found now key entries found).0
  unfolding get_found
  get_found-Within wanted now key entries none h = h
  get_found-Within wanted now key entries (some e) h = elim (Bool-cases (ltb e.expiry now)) [
    | inl f ↦ rw f (delete-Within wanted key entries h)
    | inr f ↦ rw f h
  ]

  length-get-le :
      (now : ℕ) (key : String) (entries : Entries) → length (get now key entries).0 ≤ length entries
  unfolding get get_found
  length-get-le now key entries = elim (Option-cases (lookup key entries)) [
    | inl q ↦ ground (arith, q)
    | inr (e, q) ↦ ground (arith, q, length-delete-le key entries)
  ]

  run-Within : (log : List Call) → Within (latest ttl log) (run ttl limit log)
  unfolding run latest lookup get
  run-Within [] key = inl refl
  run-Within (got now key ∷ older) k =
      get_found-Within (latest ttl older) now key (run ttl limit older)
        (lookup key (run ttl limit older)) (run-Within older) k
  run-Within (stored now at key value ∷ older) k =
      put-Within (latest ttl older) now at key value (run ttl limit older) (run-Within older) k

  length-run : (log : List Call) → length (run ttl limit log) ≤ limit
  unfolding run
  length-run [] = omega arith
  length-run (got now key ∷ older) =
      omega (arith, length-run older, length-get-le now key (run ttl limit older))
  length-run (stored now at key value ∷ older) =
      length-put-le now at key value (run ttl limit older) (length-run older)

  -- What a call may return for a key: nothing, or the value that was last put under it, if that has
  -- not expired.
  abbrev pub Serves : List Call → ℕ → String → Option String → Type 0
  Serves log now key none = Unit
  Serves log now key (some value) =
      (e : Entry) × (latest ttl log key ≡ some e) × (e.value ≡ value) × (now ≤ e.expiry)

  get_found-Serves :
      (log : List Call) (now : ℕ) (key : String) (found : Option Entry)
      → (found ≡ none) ⊎ (found ≡ latest ttl log key)
      → Serves log now key (get_found now key (run ttl limit log) found).1
  unfolding get_found
  get_found-Serves log now key none h = tt
  get_found-Serves log now key (some e) (inl n) = absurd (ground (arith, n))
  get_found-Serves log now key (some e) (inr n) = elim (Bool-cases (ltb e.expiry now)) [
    | inl f ↦ rw f tt
    | inr f ↦ rw f (e, sym n, refl, ltb-false→le e.expiry now f)
  ]

  -- Whatever calls the cache has had, it holds at most its limit of entries, and a call of `get`
  -- returns nothing or the value that was last put under the key, not past its time to live.
  pub get_latest :
      (log : List Call) (now : ℕ) (key : String)
      → (length (run ttl limit log) ≤ limit)
        × Serves log now key (get now key (run ttl limit log)).1
  unfolding get
  get_latest log now key = (
    length-run log,
    get_found-Serves log now key (lookup key (run ttl limit log)) (run-Within log key),
  )
