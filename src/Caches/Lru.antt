-- ===== src/Caches/Lru.antt =====
-- The list that the caches keep is the LRU library's: an interface, with what the caches rely on as its
-- laws. A removal and an addition return the entries that they hand to the eviction callback.
use arcade.Prelude.{
  ℕ, ◌+◌, ◌-◌, ◌≤◌, ◌≡◌, ◌⊎◌, [], ◌∷◌, Option, none, some, ◌==◌, IsEq, if◌then◌else◌,
}
use arcade.Prelude.Map.{Map, lookup}

-- What entries cost altogether.
abbrev pub spent : {K V : Type 0} → (K → V → ℕ) → Map K V → ℕ
spent cost [] = 0
spent cost ((k, v) ∷ entries) = cost k v + spent cost entries

pub record Lru (K V L : Type 0) ⦃e : IsEq K⦄ : Type 0 where
  -- The entries, which the caches read through the operations only.
  pub contents : L → Map K V
  pub empty : L
  pub get : K → L → L × Option V
  pub add : K → V → L → L × Map K V
  pub remove : K → L → L × Map K V
  pub remove_oldest : L → L × Map K V
  pub len : L → ℕ
  pub empty_lookup : (k : K) → lookup k (contents empty) ≡ none
  pub empty_spent : (cost : K → V → ℕ) → spent cost (contents empty) ≡ 0
  pub len_lem : (l : L) → len l ≡ spent (λ k v. 1) (contents l)
  -- `get` returns the value and changes the recency alone.
  pub get_value : (k : K) (l : L) → (get k l).1 ≡ lookup k (contents l)
  pub get_lookup : (k j : K) (l : L) → lookup j (contents (get k l).0) ≡ lookup j (contents l)
  pub get_spent :
      (cost : K → V → ℕ) (k : K) (l : L)
      → spent cost (contents (get k l).0) ≡ spent cost (contents l)
  -- `remove` takes the key out, and the callback gets what was there.
  pub remove_lookup :
      (k j : K) (l : L)
      → lookup j (contents (remove k l).0) ≡ (if k == j then none else lookup j (contents l))
  pub remove_spent :
      (cost : K → V → ℕ) (k : K) (l : L)
      → spent cost (contents (remove k l).0) + spent cost (remove k l).1 ≡ spent cost (contents l)
  -- `add` of a key that is not there adds it, and may evict former entries, which the callback
  -- gets.
  pub add_lookup :
      (k j : K) (v : V) (l : L)
      → lookup k (contents l) ≡ none
      → (lookup j (contents (add k v l).0) ≡ none)
        ⊎ (lookup j (contents (add k v l).0) ≡ (if k == j then some v else lookup j (contents l)))
  pub add_spent :
      (cost : K → V → ℕ) (k : K) (v : V) (l : L)
      → lookup k (contents l) ≡ none
      → spent cost (contents (add k v l).0) + spent cost (add k v l).1
        ≡ cost k v + spent cost (contents l)
  pub add_evicts :
      (cost : K → V → ℕ) (k : K) (v : V) (l : L)
      → lookup k (contents l) ≡ none
      → spent cost (add k v l).1 ≤ spent cost (contents l)
  -- `remove_oldest` takes one entry out, if there is one, and the callback gets it.
  pub oldest_lookup :
      (j : K) (l : L)
      → (lookup j (contents (remove_oldest l).0) ≡ none)
        ⊎ (lookup j (contents (remove_oldest l).0) ≡ lookup j (contents l))
  pub oldest_spent :
      (cost : K → V → ℕ) (l : L)
      → spent cost (contents (remove_oldest l).0) + spent cost (remove_oldest l).1
        ≡ spent cost (contents l)
  pub oldest_len : (l : L) → len (remove_oldest l).0 ≡ len l - 1
