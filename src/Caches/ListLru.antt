-- ===== src/Caches/ListLru.antt =====
-- A list, the newest entry first and each key once, does what the caches rely on of the LRU library.
use arcade.Prelude.{
  ℕ, ◌+◌, ◌-◌, ◌≤◌, ◌≡◌, ◌⊎◌, refl, sym, ap, subst, ◌∙◌, inl, inr, [], ◌∷◌, Option, none, some,
  arith, ◌==◌, IsEq, if◌then◌else◌, ltb, length, Bool-cases, eq_cases,
}
use arcade.Prelude.Map.{Map, lookup, delete, lookup-delete, lookup-delete_self, lookup-delete_ne}
use arcade.Caches.Lru.{Lru, spent}

module _ {K V : Type 0} ⦃e : IsEq K⦄ where
  abbrev Once : Map K V → Type 0
  Once [] = Unit
  Once ((k, v) ∷ rest) = (lookup k rest ≡ none) × Once rest

  -- The entry of a key, the entries but the last, and the last.
  abbrev entry_of : K → Option V → Map K V
  entry_of k none = []
  entry_of k (some v) = (k, v) ∷ []

  abbrev taken : K → Map K V → Map K V
  taken k m = entry_of k (lookup k m)

  unfoldable all_but_last : Map K V → Map K V
  all_but_last [] = []
  all_but_last (x ∷ []) = []
  all_but_last (x ∷ y ∷ rest) = x ∷ all_but_last (y ∷ rest)

  unfoldable last_of : Map K V → Map K V
  last_of [] = []
  last_of (x ∷ []) = x ∷ []
  last_of (x ∷ y ∷ rest) = last_of (y ∷ rest)

  delete-Once : (k : K) (m : Map K V) → Once m → Once (delete k m)
  unfolding delete
  delete-Once k [] h = tt
  delete-Once k ((j, v) ∷ m) h = elim (Bool-cases (j == k)) [
    | inl b ↦ rw b (delete-Once k m h.1)
    | inr b ↦ rw b (ground (arith, lookup-delete k j m, h.0), delete-Once k m h.1)
  ]

  delete-none : (k : K) (m : Map K V) → lookup k m ≡ none → delete k m ≡ m
  unfolding delete lookup
  delete-none k [] h = refl
  delete-none k ((j, v) ∷ m) h = elim (Bool-cases (j == k)) [
    | inl b ↦ absurd (ground (arith, b, h))
    | inr b ↦ rw b (ap (λ r. (j, v) ∷ r) (delete-none k m (rw b at h)))
  ]

  spent-delete :
      (cost : K → V → ℕ) (k : K) (m : Map K V)
      → Once m
      → spent cost (delete k m) + spent cost (taken k m) ≡ spent cost m
  unfolding delete lookup
  spent-delete cost k [] h = omega arith
  spent-delete cost k ((j, v) ∷ m) h = elim (eq_cases j k) [
    | inl (b, x) ↦ rw b (
        omega (
          arith,
          ap (spent cost) (delete-none k m (ap (λ z. lookup z m) (sym x) ∙ h.0)),
          ap (λ z. cost z v) x,
        ))
    | inr (b, x) ↦ rw b (omega (arith, spent-delete cost k m h.1))
  ]

  spent-all_but_last :
      (cost : K → V → ℕ) (m : Map K V)
      → spent cost (all_but_last m) + spent cost (last_of m) ≡ spent cost m
  unfolding all_but_last last_of
  spent-all_but_last cost [] = omega arith
  spent-all_but_last cost (x ∷ []) = omega arith
  spent-all_but_last cost (x ∷ y ∷ rest) = omega (arith, spent-all_but_last cost (y ∷ rest))

  lookup-all_but_last :
      (j : K) (m : Map K V)
      → (lookup j (all_but_last m) ≡ none) ⊎ (lookup j (all_but_last m) ≡ lookup j m)
  unfolding all_but_last lookup
  lookup-all_but_last j [] = inl refl
  lookup-all_but_last j (x ∷ []) = inl refl
  lookup-all_but_last j ((k, v) ∷ y ∷ rest) = elim (Bool-cases (k == j)) [
    | inl b ↦ rw b (inr refl)
    | inr b ↦ rw b (lookup-all_but_last j (y ∷ rest))
  ]

  all_but_last-none : (k : K) (m : Map K V) → lookup k m ≡ none → lookup k (all_but_last m) ≡ none
  all_but_last-none k m h = elim (lookup-all_but_last k m) [ inl n ↦ n | inr n ↦ n ∙ h ]

  all_but_last-Once : (m : Map K V) → Once m → Once (all_but_last m)
  unfolding all_but_last
  all_but_last-Once [] h = tt
  all_but_last-Once (x ∷ []) h = tt
  all_but_last-Once ((k, v) ∷ y ∷ rest) h =
      (all_but_last-none k (y ∷ rest) h.0, all_but_last-Once (y ∷ rest) h.1)

  spent-length : (m : Map K V) → spent (λ k v. 1) m ≡ length m
  spent-length [] = refl
  spent-length (x ∷ m) = omega (arith, spent-length m)

  length-all_but_last : (m : Map K V) → length (all_but_last m) ≡ length m - 1
  unfolding all_but_last
  length-all_but_last [] = refl
  length-all_but_last (x ∷ []) = refl
  length-all_but_last (x ∷ y ∷ rest) = omega (arith, length-all_but_last (y ∷ rest))

-- Entries with each key once.
pub record Entries (K V : Type 0) ⦃e : IsEq K⦄ : Type 0 where
  pub list : Map K V
  pub once : Once list

module _ {K V : Type 0} ⦃e : IsEq K⦄ (size : ℕ) where
  abbrev list_remove : K → Entries K V → Entries K V × Map K V
  list_remove k l =
      (record { list = delete k l.list; once = delete-Once k l.list l.once }, taken k l.list)

  abbrev list_oldest : Entries K V → Entries K V × Map K V
  list_oldest l = (
    record { list = all_but_last l.list; once = all_but_last-Once l.list l.once },
    last_of l.list,
  )

  -- A read moves the entry to the front.
  unfoldable list_read : K → (m : Map K V) → Once m → Option V → Entries K V
  list_read k m h none = record { list = m; once = h }
  list_read k m h (some v) = record {
    list = (k, v) ∷ delete k m;
    once = (lookup-delete_self k m, delete-Once k m h);
  }

  -- An addition evicts the oldest of a full list.
  unfoldable list_add : K → V → Entries K V → Entries K V × Map K V
  list_add k v l =
      let (d, t) = list_remove k l in
      if ltb (length d.list) size
      then (record { list = (k, v) ∷ d.list; once = (lookup-delete_self k l.list, d.once) }, [])
      else (
        record {
          list = (k, v) ∷ all_but_last d.list;
          once = (
            all_but_last-none k d.list (lookup-delete_self k l.list),
            all_but_last-Once d.list d.once,
          );
        },
        last_of d.list,
      )

  read-lookup :
      (k j : K) (m : Map K V) (h : Once m) (o : Option V)
      → lookup k m ≡ o
      → lookup j (list_read k m h o).list ≡ lookup j m
  unfolding list_read lookup
  read-lookup k j m h none q = refl
  read-lookup k j m h (some v) q = elim (eq_cases k j) [
    | inl (b, x) ↦ rw b (sym q ∙ ap (λ z. lookup z m) x)
    | inr (b, x) ↦ rw b (lookup-delete_ne k j m x)
  ]

  read-spent :
      (cost : K → V → ℕ) (k : K) (m : Map K V) (h : Once m) (o : Option V)
      → lookup k m ≡ o
      → spent cost (list_read k m h o).list ≡ spent cost m
  unfolding list_read
  read-spent cost k m h none q = refl
  read-spent cost k m h (some v) q =
      omega (arith, spent-delete cost k m h, ap (λ o. spent cost (entry_of k o)) q)

  cons-lookup :
      (k j : K) (v : V) (m rest : Map K V)
      → (lookup j rest ≡ none) ⊎ (lookup j rest ≡ lookup j m)
      → (lookup j ((k, v) ∷ rest) ≡ none)
        ⊎ (lookup j ((k, v) ∷ rest) ≡ (if k == j then some v else lookup j m))
  unfolding lookup
  cons-lookup k j v m rest h = elim (Bool-cases (k == j)) [
    | inl b ↦ rw b (inr refl)
    | inr b ↦ rw b h
  ]

  module _ (k : K) (v : V) (l : Entries K V) (h : lookup k l.list ≡ none) where
    same : delete k l.list ≡ l.list
    same = delete-none k l.list h

    add-lookup :
        (j : K)
        → (lookup j (list_add k v l).0.list ≡ none)
          ⊎ (lookup j (list_add k v l).0.list ≡ (if k == j then some v else lookup j l.list))
    unfolding list_add
    add-lookup j = elim (Bool-cases (ltb (length (delete k l.list)) size)) [
      | inl b ↦ rw b (cons-lookup k j v l.list (delete k l.list) (inr (ap (lookup j) same)))
      | inr b ↦ rw b (
          cons-lookup k j v l.list (all_but_last (delete k l.list)) (
            subst
              (λ m.
                (lookup j (all_but_last m) ≡ none) ⊎ (lookup j (all_but_last m) ≡ lookup j l.list))
              (sym same) (lookup-all_but_last j l.list)))
    ]

    add-spent :
        (cost : K → V → ℕ)
        → spent cost (list_add k v l).0.list + spent cost (list_add k v l).1
          ≡ cost k v + spent cost l.list
    unfolding list_add
    add-spent cost = elim (Bool-cases (ltb (length (delete k l.list)) size)) [
      | inl b ↦ rw b (omega (arith, ap (spent cost) same))
      | inr b ↦
          rw b (omega (arith, spent-all_but_last cost (delete k l.list), ap (spent cost) same))
    ]

    add-evicts : (cost : K → V → ℕ) → spent cost (list_add k v l).1 ≤ spent cost l.list
    unfolding list_add
    add-evicts cost = elim (Bool-cases (ltb (length (delete k l.list)) size)) [
      | inl b ↦ rw b (omega arith)
      | inr b ↦
          rw b (omega (arith, spent-all_but_last cost (delete k l.list), ap (spent cost) same))
    ]

  lookup-nothing : (k : K) → lookup {V = V} k [] ≡ none
  unfolding lookup
  lookup-nothing k = refl

  pub list_lru : Lru K V (Entries K V)
  list_lru = record {
    contents = λ l. l.list;
    empty = record { list = []; once = tt };
    empty_lookup = λ k. lookup-nothing k;
    empty_spent = λ cost. refl;
    get = λ k l. (list_read k l.list l.once (lookup k l.list), lookup k l.list);
    add = list_add;
    remove = list_remove;
    remove_oldest = list_oldest;
    len = λ l. length l.list;
    len_lem = λ l. sym (spent-length l.list);
    get_value = λ k l. refl;
    get_lookup = λ k j l. read-lookup k j l.list l.once (lookup k l.list) refl;
    get_spent = λ cost k l. read-spent cost k l.list l.once (lookup k l.list) refl;
    remove_lookup = λ k j l. lookup-delete k j l.list;
    remove_spent = λ cost k l. spent-delete cost k l.list l.once;
    add_lookup = λ k j v l h. add-lookup k v l h j;
    add_spent = λ cost k v l h. add-spent k v l h cost;
    add_evicts = λ cost k v l h. add-evicts k v l h cost;
    oldest_lookup = λ j l. lookup-all_but_last j l.list;
    oldest_spent = λ cost l. spent-all_but_last cost l.list;
    oldest_len = λ l. length-all_but_last l.list;
  }
