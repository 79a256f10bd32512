-- ===== src/Caches/Tokens/Answers.antt =====
-- services/sse/tokenindex.go: what the index answers is what the store answered, lately.
use arcade.Prelude.{
  ℕ, ◌+◌, ◌≤◌, ◌≡◌, ◌≢◌, subst, ◌⊎◌, refl, sym, ap, ◌∙◌, inl, inr, String, List, [], ◌∷◌, Option,
  none, some, arith, ◌==◌, string_eq, ltb, ltb-false→le, Bool-cases, eq_cases,
}
use arcade.Prelude.Map.{lookup}
use arcade.Caches.Lru.{Lru}
use arcade.Caches.Budget.{
  Charged, IsBudgeted, drop_key, read, install-Part, drop_key-lookup, read-lookup,
  install-IsBudgeted, drop_key-IsBudgeted, read-IsBudgeted, empty-IsBudgeted,
}
use arcade.Caches.Tokens.{
  TokenSet, CacheEntry, Call, entry_cost, cached_entry, cached, add, resolve, hit_or, find, run,
}

-- What the store resolves; nothing where it fails.
abbrev pub or_nothing : Option TokenSet → TokenSet
or_nothing none = []
or_nothing (some tokens) = tokens

cons_ne : (t : String) (rest : List String) → (t ∷ rest) ≢ []
cons_ne t rest q = absurd (ground (arith, q))

module _ (ttl : ℕ) where
  -- An entry is the answer of the store to one of the calls, which was not empty, with its time to live.
  abbrev pub Given : List Call → String → CacheEntry → Type 0
  Given [] k entry = ⊥
  Given (c ∷ older) k entry =
      ((c.txid ≡ k)
        × (c.answer ≡ some (entry.tokens))
        × (entry.tokens ≢ [])
        × (entry.expires_at ≡ c.stored + ttl))
      ⊎ Given older k entry

  -- What a call may answer.
  abbrev pub Answers : List Call → Call → TokenSet → Type 0
  Answers log c tokens =
      ((c.txid ≡ "") × (tokens ≡ []))
      ⊎ (tokens ≡ or_nothing c.answer)
      ⊎ ((entry : CacheEntry) × Given log c.txid entry
          × (entry.tokens ≡ tokens)
          × (c.now ≤ entry.expires_at))

module _ {L : Type 0} (api : Lru String CacheEntry L) (byte_length : String → ℕ)
    (max_bytes ttl : ℕ) where
  -- What is cached is given.
  abbrev IsGiven : List Call → Charged L → Type 0
  IsGiven log c =
      (k : String) (entry : CacheEntry)
      → lookup k (api.contents c.lru) ≡ some entry
      → Given ttl log k entry

  read-IsGiven :
      (log : List Call) (k : String) (c : Charged L)
      → IsGiven log c
      → IsGiven log (read api (entry_cost byte_length) k c).0
  read-IsGiven log k c h j entry q =
      h j entry (sym (read-lookup api (entry_cost byte_length) k j c) ∙ q)

  drop_key-IsGiven :
      (log : List Call) (k : String) (c : Charged L)
      → IsGiven log c
      → IsGiven log (drop_key api (entry_cost byte_length) k c)
  drop_key-IsGiven log k c h j entry q = elim (Bool-cases (k == j)) [
    | inl b ↦ absurd (ground (arith, b, q, drop_key-lookup api (entry_cost byte_length) k j c))
    | inr b ↦ h j entry (ground (arith, b, q, drop_key-lookup api (entry_cost byte_length) k j c))
  ]

  add-IsGiven :
      (log : List Call) (call : Call) (tokens : TokenSet) (c : Charged L)
      → call.answer ≡ some tokens
      → tokens ≢ []
      → IsGiven log c
      → IsGiven (call ∷ log) (add api byte_length max_bytes ttl call.stored call.txid tokens c)
  unfolding add
  add-IsGiven log call tokens c a full h j entry q =
      let e : CacheEntry = record { tokens = tokens; expires_at = call.stored + ttl } in
      elim (install-Part api (entry_cost byte_length) (λ k. lookup k (api.contents c.lru)) max_bytes
        call.txid e c (λ k. inr refl) j) [
          | inl n ↦ absurd (ground (arith, n, q))
          | inr n ↦ elim (eq_cases call.txid j) [
            | inl (b, x) ↦ inl (
              x,
              a
                  ∙ ap (λ o. elim o [ none ↦ some [] | some z ↦ some (z.tokens) ])
                      (sym (rw b at n) ∙ q),
              subst (λ z. z ≢ [])
                  (ap (λ o. elim o [ none ↦ [] | some z ↦ z.tokens ]) (sym (rw b at n) ∙ q)) full,
              sym (ap (λ o. elim o [ none ↦ 0 | some z ↦ z.expires_at ]) (sym (rw b at n) ∙ q)),
            )
            | inr (b, x) ↦ inr (h j entry (sym (rw b at n) ∙ q))
          ]
        ]

  resolve-IsGiven :
      (log : List Call) (call : Call) (answer : Option TokenSet) (c : Charged L)
      → call.answer ≡ answer
      → IsGiven log c
      → IsGiven
          (call ∷ log)
          (resolve api byte_length max_bytes ttl call.stored call.txid answer c).0
        × Answers ttl log call
            (resolve api byte_length max_bytes ttl call.stored call.txid answer c).1
  unfolding resolve
  resolve-IsGiven log call none c a h =
      (λ j entry q. inr (h j entry q), inr (inl (ap or_nothing (sym a))))
  resolve-IsGiven log call (some []) c a h =
      (λ j entry q. inr (h j entry q), inr (inl (ap or_nothing (sym a))))
  resolve-IsGiven log call (some (t ∷ rest)) c a h =
      (add-IsGiven log call (t ∷ rest) c a (cons_ne t rest) h, inr (inl (ap or_nothing (sym a))))

  -- A hit: an entry that has not expired.
  hit_or-IsGiven :
      (log : List Call) (call : Call) (c : Charged L) (found : Option CacheEntry)
      → IsGiven log c
      → ((entry : CacheEntry) → found ≡ some entry → Given ttl log call.txid entry)
      → let r =
          hit_or api byte_length max_bytes ttl call.stored call.txid call.answer
            (cached_entry api byte_length max_bytes ttl call.now call.txid (c, found)) in
        IsGiven (call ∷ log) r.0 × Answers ttl log call r.1
  unfolding cached_entry
  hit_or-IsGiven log call c none h g = resolve-IsGiven log call call.answer c refl h
  hit_or-IsGiven log call c (some entry) h g = elim (Bool-cases (ltb entry.expires_at call.now)) [
    | inl b ↦ rw b (
        resolve-IsGiven log call call.answer (drop_key api (entry_cost byte_length) call.txid c)
          refl (drop_key-IsGiven log call.txid c h))
    | inr b ↦ rw b (
      λ j e q. inr (h j e q),
      inr (inr (entry, g entry refl, refl, ltb-false→le entry.expires_at call.now b)),
    )
  ]

  find-IsGiven :
      (log : List Call) (call : Call) (c : Charged L)
      → IsGiven log c
      → let r = find api byte_length max_bytes ttl call.now call.stored call.txid call.answer c in
        IsGiven (call ∷ log) r.0 × Answers ttl log call r.1
  unfolding find cached read
  find-IsGiven log call c h = elim (eq_cases call.txid "") [
    | inl (b, x) ↦ rw b (λ j e q. inr (h j e q), inl (x, refl))
    | inr (b, x) ↦ rw b (
        hit_or-IsGiven log call (read api (entry_cost byte_length) call.txid c).0
          (api.get call.txid c.lru).1 (read-IsGiven log call.txid c h)
          (λ entry q. h call.txid entry (sym (api.get_value call.txid c.lru) ∙ q)))
  ]

  run-IsGiven : (log : List Call) → IsGiven log (run api byte_length max_bytes ttl log)
  unfolding run
  run-IsGiven [] j entry q = absurd (ground (arith, q, api.empty_lookup j))
  run-IsGiven (call ∷ log) j entry q =
      (find-IsGiven log call (run api byte_length max_bytes ttl log) (run-IsGiven log)).0 j entry q

  abbrev Budgeted : Charged L → Type 0
  Budgeted c = IsBudgeted api (entry_cost byte_length) max_bytes c

  resolve-Budgeted :
      (stored : ℕ) (txid : String) (answer : Option TokenSet) (c : Charged L)
      → Budgeted c
      → Budgeted (resolve api byte_length max_bytes ttl stored txid answer c).0
  unfolding resolve add
  resolve-Budgeted stored txid none c h = h
  resolve-Budgeted stored txid (some []) c h = h
  resolve-Budgeted stored txid (some (t ∷ rest)) c h =
      install-IsBudgeted api (entry_cost byte_length) max_bytes txid
        (record { tokens = t ∷ rest; expires_at = stored + ttl }) c h

  hit_or-Budgeted :
      (call : Call) (c : Charged L) (found : Option CacheEntry)
      → Budgeted c
      → Budgeted
          (hit_or api byte_length max_bytes ttl call.stored call.txid call.answer
            (cached_entry api byte_length max_bytes ttl call.now call.txid (c, found))).0
  unfolding cached_entry
  hit_or-Budgeted call c none h = resolve-Budgeted call.stored call.txid call.answer c h
  hit_or-Budgeted call c (some entry) h = elim (Bool-cases (ltb entry.expires_at call.now)) [
    | inl b ↦ rw b (
        resolve-Budgeted call.stored call.txid call.answer
          (drop_key api (entry_cost byte_length) call.txid c)
          (drop_key-IsBudgeted api (entry_cost byte_length) max_bytes call.txid c h))
    | inr b ↦ rw b h
  ]

  find-Budgeted :
      (call : Call) (c : Charged L)
      → Budgeted c
      → Budgeted (find api byte_length max_bytes ttl call.now call.stored call.txid call.answer c).0
  unfolding find cached read
  find-Budgeted call c h = elim (Bool-cases (call.txid == "")) [
    | inl b ↦ rw b h
    | inr b ↦ rw b (
        hit_or-Budgeted call (read api (entry_cost byte_length) call.txid c).0
          (api.get call.txid c.lru).1
          (read-IsBudgeted api (entry_cost byte_length) max_bytes call.txid c h))
  ]

  run-Budgeted : (log : List Call) → Budgeted (run api byte_length max_bytes ttl log)
  unfolding run
  run-Budgeted [] = empty-IsBudgeted api (entry_cost byte_length) max_bytes
  run-Budgeted (call ∷ log) =
      find-Budgeted call (run api byte_length max_bytes ttl log) (run-Budgeted log)

  -- Whatever lookups a new index has had, and whatever the store answered them: a lookup answers nothing
  -- for the empty id, or what the store resolves now, nothing where it fails, or what it answered an
  -- earlier lookup of the same transaction, which was not empty, not longer ago than the time to live;
  -- and the index counts the bytes of its entries exactly and keeps them within the budget, unless it
  -- has at most one.
  pub find-Answers :
      (log : List Call) (call : Call)
      → let c = run api byte_length max_bytes ttl log in
        Answers ttl log call
          (find api byte_length max_bytes ttl call.now call.stored call.txid call.answer c).1
        × IsBudgeted api (entry_cost byte_length) max_bytes c
  find-Answers log call = (
    (find-IsGiven log call (run api byte_length max_bytes ttl log) (run-IsGiven log)).1,
    run-Budgeted log,
  )
