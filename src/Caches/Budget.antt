-- ===== src/Caches/Budget.antt =====
-- What store/bumpcache/bumpcache.go and services/sse/tokenindex.go share: an LRU list whose entries
-- are charged to a running total by their cost, and evicted while the total exceeds a budget.
use arcade.Prelude.{
  ℕ, zero, suc, ◌+◌, ◌-◌, ◌≤◌, ◌≡◌, ◌⊎◌, sym, ◌∙◌, inl, inr, ◌&&◌, Option, none, some, arith, ◌==◌,
  IsEq, if◌then◌else◌, ltb, Bool-cases, beq_refl,
}
use arcade.Prelude.Map.{Map, lookup}
use arcade.Caches.Lru.{Lru, spent}

pub record Charged (L : Type 0) : Type 0 where
  pub lru : L
  pub total : ℕ

module _ {K V L : Type 0} ⦃e : IsEq K⦄ (api : Lru K V L) (cost : K → V → ℕ) where
  -- An LRU operation, with the callback on what it evicts: `total -= cost`.
  unfoldable pub evicting : ℕ → L × Map K V → Charged L
  evicting total (l, evicted) = record { lru = l; total = total - spent cost evicted }

  unfoldable pub drop_key : K → Charged L → Charged L
  drop_key k c = evicting c.total (api.remove k c.lru)

  unfoldable pub read : K → Charged L → Charged L × Option V
  read k c = let (l, v) = api.get k c.lru in (record { lru = l; total = c.total }, v)

  -- `for total > budget && lru.Len() > 1 { lru.RemoveOldest() }`, on fuel.
  unfoldable pub shrink : ℕ → ℕ → Charged L → Charged L
  shrink zero budget c = c
  shrink (suc fuel) budget c =
      let rest = shrink fuel budget (evicting c.total (api.remove_oldest c.lru)) in
      if ltb budget c.total && ltb 1 (api.len c.lru) then rest else c

  -- The key is removed first; the entry is added and charged; then the list shrinks.
  unfoldable pub charge : K → V → Charged L → Charged L
  charge k v c =
      let dropped = drop_key k c in
      let added = evicting dropped.total (api.add k v dropped.lru) in
      record added { total = added.total + cost k v }

  unfoldable pub install : ℕ → K → V → Charged L → Charged L
  install budget k v c = let d = charge k v c in shrink (api.len d.lru) budget d

  -- The total is what the entries cost.
  abbrev pub IsExact : Charged L → Type 0
  IsExact c = c.total ≡ spent cost (api.contents c.lru)

  -- The total is within the budget, but for a single entry.
  abbrev pub IsWithin : ℕ → Charged L → Type 0
  IsWithin budget c = (c.total ≤ budget) ⊎ (api.len c.lru ≤ 1)

  -- What is cached is some of what another list caches.
  abbrev pub Part : (K → Option V) → Charged L → Type 0
  Part wanted c =
      (j : K) → (lookup j (api.contents c.lru) ≡ none) ⊎ (lookup j (api.contents c.lru) ≡ wanted j)

  shrink-IsExact : (fuel budget : ℕ) (c : Charged L) → IsExact c → IsExact (shrink fuel budget c)
  unfolding shrink evicting
  shrink-IsExact zero budget c h = h
  shrink-IsExact (suc fuel) budget c h =
      elim (Bool-cases (ltb budget c.total && ltb 1 (api.len c.lru))) [
        | inl f ↦ rw f (
            shrink-IsExact fuel budget (evicting c.total (api.remove_oldest c.lru))
              (omega (arith, h, api.oldest_spent cost c.lru)))
        | inr f ↦ rw f h
      ]

  shrink-IsWithin :
      (fuel budget : ℕ) (c : Charged L)
      → api.len c.lru ≤ fuel
      → IsWithin budget (shrink fuel budget c)
  unfolding shrink evicting
  shrink-IsWithin zero budget c h = inr (omega (arith, h))
  shrink-IsWithin (suc fuel) budget c h =
      elim (Bool-cases (ltb budget c.total && ltb 1 (api.len c.lru))) [
        | inl f ↦ rw f (
            shrink-IsWithin fuel budget (evicting c.total (api.remove_oldest c.lru))
              (omega (arith, h, api.oldest_len c.lru)))
        | inr f ↦ rw f (ground (arith, f))
      ]

  shrink-Part :
      (wanted : K → Option V) (fuel budget : ℕ) (c : Charged L)
      → Part wanted c
      → Part wanted (shrink fuel budget c)
  unfolding shrink evicting
  shrink-Part wanted zero budget c h = h
  shrink-Part wanted (suc fuel) budget c h =
      elim (Bool-cases (ltb budget c.total && ltb 1 (api.len c.lru))) [
        | inl f ↦ rw f (
            shrink-Part wanted fuel budget (evicting c.total (api.remove_oldest c.lru)) (λ j.
              elim (api.oldest_lookup j c.lru) [
                | inl n ↦ inl n
                | inr n ↦ elim (h j) [ inl m ↦ inl (n ∙ m) | inr m ↦ inr (n ∙ m) ]
              ]))
        | inr f ↦ rw f h
      ]

  dropped : (k : K) (c : Charged L) → lookup k (api.contents (drop_key k c).lru) ≡ none
  unfolding drop_key evicting
  dropped k c = ground (arith, api.remove_lookup k k c.lru, beq_refl k)

  pub drop_key-IsExact : (k : K) (c : Charged L) → IsExact c → IsExact (drop_key k c)
  unfolding drop_key evicting
  drop_key-IsExact k c h = omega (arith, h, api.remove_spent cost k c.lru)

  pub read-IsExact : (k : K) (c : Charged L) → IsExact c → IsExact (read k c).0
  unfolding read
  read-IsExact k c h = h ∙ sym (api.get_spent cost k c.lru)

  charge-IsExact : (k : K) (v : V) (c : Charged L) → IsExact c → IsExact (charge k v c)
  unfolding charge evicting
  charge-IsExact k v c h =
      let d : Charged L = drop_key k c in
      omega (
        arith,
        drop_key-IsExact k c h,
        api.add_spent cost k v d.lru (dropped k c),
        api.add_evicts cost k v d.lru (dropped k c),
      )

  pub install-IsExact :
      (budget : ℕ) (k : K) (v : V) (c : Charged L) → IsExact c → IsExact (install budget k v c)
  unfolding install
  install-IsExact budget k v c h =
      shrink-IsExact (api.len (charge k v c).lru) budget (charge k v c) (charge-IsExact k v c h)

  pub install-IsWithin :
      (budget : ℕ) (k : K) (v : V) (c : Charged L) → IsWithin budget (install budget k v c)
  unfolding install
  install-IsWithin budget k v c =
      shrink-IsWithin (api.len (charge k v c).lru) budget (charge k v c) (omega arith)

  pub drop_key-lookup :
      (k j : K) (c : Charged L)
      → lookup j (api.contents (drop_key k c).lru)
        ≡ (if k == j then none else lookup j (api.contents c.lru))
  unfolding drop_key evicting
  drop_key-lookup k j c = api.remove_lookup k j c.lru

  charge-Part :
      (wanted : K → Option V) (k : K) (v : V) (c : Charged L)
      → Part wanted c
      → Part (λ j. if k == j then some v else wanted j) (charge k v c)
  unfolding charge evicting
  charge-Part wanted k v c h j = elim (api.add_lookup k j v (drop_key k c).lru (dropped k c)) [
    | inl n ↦ inl n
    | inr n ↦ elim (Bool-cases (k == j)) [
      | inl b ↦ inr (ground (arith, b, n))
      | inr b ↦ elim (h j) [
        | inl m ↦ inl (ground (arith, b, n, m, drop_key-lookup k j c))
        | inr m ↦ inr (ground (arith, b, n, m, drop_key-lookup k j c))
      ]
    ]
  ]

  -- What is cached after an installation is the new entry, and some of what was cached before.
  pub install-Part :
      (wanted : K → Option V) (budget : ℕ) (k : K) (v : V) (c : Charged L)
      → Part wanted c
      → Part (λ j. if k == j then some v else wanted j) (install budget k v c)
  unfolding install
  install-Part wanted budget k v c h =
      shrink-Part (λ j. if k == j then some v else wanted j) (api.len (charge k v c).lru) budget
        (charge k v c) (charge-Part wanted k v c h)

  pub read-lookup :
      (k j : K) (c : Charged L)
      → lookup j (api.contents (read k c).0.lru) ≡ lookup j (api.contents c.lru)
  unfolding read
  read-lookup k j c = api.get_lookup k j c.lru

  -- What holds of the entries between the operations.
  pub record IsBudgeted (budget : ℕ) (c : Charged L) : Type 0 where
    pub exact : IsExact c
    pub within : IsWithin budget c

  pub install-IsBudgeted :
      (budget : ℕ) (k : K) (v : V) (c : Charged L)
      → IsBudgeted budget c
      → IsBudgeted budget (install budget k v c)
  install-IsBudgeted budget k v c h = record {
    exact = install-IsExact budget k v c h.exact;
    within = install-IsWithin budget k v c;
  }

  -- Fewer entries, and no larger total.
  IsWithin-fewer :
      (budget : ℕ) (c c' : Charged L)
      → c'.total ≤ c.total
      → spent (λ k v. 1) (api.contents c'.lru) ≤ spent (λ k v. 1) (api.contents c.lru)
      → IsWithin budget c
      → IsWithin budget c'
  IsWithin-fewer budget c c' h k (inl q) = inl (omega (arith, h, q))
  IsWithin-fewer budget c c' h k (inr q) =
      inr (omega (arith, k, q, api.len_lem c.lru, api.len_lem c'.lru))

  pub drop_key-IsBudgeted :
      (budget : ℕ) (k : K) (c : Charged L) → IsBudgeted budget c → IsBudgeted budget (drop_key k c)
  unfolding drop_key evicting
  drop_key-IsBudgeted budget k c h = record {
    exact = drop_key-IsExact k c h.exact;
    within =
        IsWithin-fewer budget c (drop_key k c) (omega arith)
          (omega (arith, api.remove_spent (λ k v. 1) k c.lru)) h.within;
  }

  pub read-IsBudgeted :
      (budget : ℕ) (k : K) (c : Charged L) → IsBudgeted budget c → IsBudgeted budget (read k c).0
  unfolding read
  read-IsBudgeted budget k c h = record {
    exact = read-IsExact k c h.exact;
    within =
        IsWithin-fewer budget c (read k c).0 (omega arith)
          (omega (arith, api.get_spent (λ k v. 1) k c.lru)) h.within;
  }

  pub empty-IsBudgeted : (budget : ℕ) → IsBudgeted budget (record { lru = api.empty; total = 0 })
  empty-IsBudgeted budget = record {
    exact = sym (api.empty_spent cost);
    within = inl (omega arith);
  }
