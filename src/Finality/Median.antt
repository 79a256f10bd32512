-- ===== src/Finality/Median.antt =====
-- finality/mtp.go, the median of the timestamps in `chainState`: the middle of the sorted list, which
-- for an even number of timestamps is the upper of the two. The sort is the standard library's.
use arcade.Prelude.{
  ℕ, zero, suc, ◌+◌, ◌/◌, ◌≤◌, ◌<◌, ◌≡◌, refl, Bool, true, List, [], ◌∷◌, Option, some, arith,
  if◌then◌else◌, ltb, leb, length, get_elem?, keep, All, All-mono, Bool-cases, leb→le, leb-false→lt,
  inl, inr, subst,
}

unfoldable pub insert_sorted : ℕ → List ℕ → List ℕ
insert_sorted x [] = x ∷ []
insert_sorted x (y ∷ ys) = let rest = insert_sorted x ys in if leb x y then x ∷ y ∷ ys else y ∷ rest

unfoldable pub sort : List ℕ → List ℕ
sort [] = []
sort (x ∷ xs) = insert_sorted x (sort xs)

unfoldable pub median : List ℕ → Option ℕ
median timestamps = get_elem? (sort timestamps) (length timestamps / 2)

abbrev IsSorted : List ℕ → Type 0
IsSorted [] = Unit
IsSorted (x ∷ xs) = All (λ y. x ≤ y) xs × IsSorted xs

-- How many elements pass a test.
abbrev pub count : (ℕ → Bool) → List ℕ → ℕ
count p xs = length (keep p xs)

count-insert_sorted :
    (p : ℕ → Bool) (x : ℕ) (xs : List ℕ) → count p (insert_sorted x xs) ≡ count p (x ∷ xs)
unfolding insert_sorted
count-insert_sorted p x [] = refl
count-insert_sorted p x (y ∷ ys) = ground (arith, count-insert_sorted p x ys)

count-sort : (p : ℕ → Bool) (xs : List ℕ) → count p (sort xs) ≡ count p xs
unfolding sort
count-sort p [] = refl
count-sort p (x ∷ xs) = ground (arith, count-insert_sorted p x (sort xs), count-sort p xs)

length-insert_sorted : (x : ℕ) (xs : List ℕ) → length (insert_sorted x xs) ≡ length xs + 1
unfolding insert_sorted
length-insert_sorted x [] = refl
length-insert_sorted x (y ∷ ys) = ground (arith, length-insert_sorted x ys)

length-sort : (xs : List ℕ) → length (sort xs) ≡ length xs
unfolding sort
length-sort [] = refl
length-sort (x ∷ xs) = ground (arith, length-insert_sorted x (sort xs), length-sort xs)

insert_sorted-All :
    (b x : ℕ) (xs : List ℕ) → b ≤ x → All (λ y. b ≤ y) xs → All (λ y. b ≤ y) (insert_sorted x xs)
unfolding insert_sorted
insert_sorted-All b x [] h k = (h, tt)
insert_sorted-All b x (y ∷ ys) h k = elim (Bool-cases (leb x y)) [
  | inl e ↦ rw e (h, k)
  | inr e ↦ rw e (k.0, insert_sorted-All b x ys h k.1)
]

insert_sorted-IsSorted : (x : ℕ) (xs : List ℕ) → IsSorted xs → IsSorted (insert_sorted x xs)
unfolding insert_sorted
insert_sorted-IsSorted x [] v = (tt, tt)
insert_sorted-IsSorted x (y ∷ ys) v = elim (Bool-cases (leb x y)) [
  | inl e ↦ rw e (
    (
      leb→le x y e,
      All-mono (λ z. y ≤ z) (λ z. x ≤ z) ys (λ z q. omega (arith, q, leb→le x y e)) v.0,
    ),
    v,
  )
  | inr e ↦ rw e (
    insert_sorted-All y x ys (omega (arith, leb-false→lt x y e)) v.0,
    insert_sorted-IsSorted x ys v.1,
  )
]

sort-IsSorted : (xs : List ℕ) → IsSorted (sort xs)
unfolding sort
sort-IsSorted [] = tt
sort-IsSorted (x ∷ xs) = insert_sorted-IsSorted x (sort xs) (sort-IsSorted xs)

count_below_none : (m : ℕ) (xs : List ℕ) → All (λ y. m ≤ y) xs → count (λ y. ltb y m) xs ≡ 0
count_below_none m [] h = refl
count_below_none m (x ∷ xs) h = ground (arith, h.0, count_below_none m xs h.1)

count_le : (p : ℕ → Bool) (xs : List ℕ) → count p xs ≤ length xs
count_le p [] = omega arith
count_le p (x ∷ xs) = ground (arith, count_le p xs)

All-get_elem? :
    (b : ℕ) (xs : List ℕ) (i m : ℕ) → All (λ y. b ≤ y) xs → get_elem? xs i ≡ some m → b ≤ m
All-get_elem? b [] i m h e = absurd (ground (arith, e))
All-get_elem? b (x ∷ xs) zero m h e = ground (arith, h.0, e)
All-get_elem? b (x ∷ xs) (suc i) m h e = All-get_elem? b xs i m h.1 e

below_sorted :
    (xs : List ℕ) (i m : ℕ) → IsSorted xs → get_elem? xs i ≡ some m → count (λ y. ltb y m) xs ≤ i
below_sorted [] i m v e = omega arith
below_sorted (x ∷ xs) zero m v e =
    ground (arith, e, count_below_none m xs (subst (λ z. All (λ y. z ≤ y) xs) (head e) v.0))
  where
    head : some x ≡ some m → x ≡ m
    head q = ground (arith, q)
below_sorted (x ∷ xs) (suc i) m v e = ground (arith, below_sorted xs i m v.1 e)

above_sorted :
    (xs : List ℕ) (i m : ℕ)
    → IsSorted xs
    → get_elem? xs i ≡ some m
    → count (λ y. ltb m y) xs + i < length xs
above_sorted [] i m v e = absurd (ground (arith, e))
above_sorted (x ∷ xs) zero m v e = ground (arith, e, count_le (λ y. ltb m y) xs)
above_sorted (x ∷ xs) (suc i) m v e =
    ground (arith, above_sorted xs i m v.1 e, All-get_elem? x xs i m v.0 e)

median_below : (ts : List ℕ) (m : ℕ) → median ts ≡ some m → count (λ y. ltb y m) ts ≤ length ts / 2
unfolding median
median_below ts m e =
    rw (← count-sort (λ y. ltb y m) ts)
      (below_sorted (sort ts) (length ts / 2) m (sort-IsSorted ts) e)

median_above :
    (ts : List ℕ) (m : ℕ) → median ts ≡ some m → count (λ y. ltb m y) ts + length ts / 2 < length ts
unfolding median
median_above ts m e = ground (
  arith,
  count-sort (λ y. ltb m y) ts,
  length-sort ts,
  above_sorted (sort ts) (length ts / 2) m (sort-IsSorted ts) e,
)

-- Every element is above `m` or below a larger `n`.
count_split :
    (m n : ℕ) (xs : List ℕ) → m < n → length xs ≤ count (λ y. ltb m y) xs + count (λ y. ltb y n) xs
count_split m n [] h = omega arith
count_split m n (x ∷ xs) h = ground (arith, count_split m n xs h)

get_elem?-some : (xs : List ℕ) (i : ℕ) → i < length xs → (m : ℕ) × (get_elem? xs i ≡ some m)
get_elem?-some [] i h = absurd (omega (arith, h))
get_elem?-some (x ∷ xs) zero h = (x, refl)
get_elem?-some (x ∷ xs) (suc i) h = get_elem?-some xs i (omega (arith, h))

median-some : (ts : List ℕ) → 0 < length ts → (m : ℕ) × (median ts ≡ some m)
unfolding median
median-some ts h = get_elem?-some (sort ts) (length ts / 2) (omega (arith, h, length-sort ts))

length-count : (xs : List ℕ) → count (λ y. true) xs ≡ length xs
length-count [] = refl
length-count (x ∷ xs) = ground (arith, length-count xs)

-- Two lists of timestamps with the same elements, each as often, in whatever order, have the same
-- median; at most half of the timestamps are below it, and fewer than half are above it.
median_bag :
    (ts us : List ℕ) (m : ℕ)
    → ((p : ℕ → Bool) → count p ts ≡ count p us)
    → median ts ≡ some m
    → (count (λ y. ltb y m) ts ≤ length ts / 2)
      × (count (λ y. ltb m y) ts + length ts / 2 < length ts)
      × (median us ≡ some m)
median_bag ts us m same e =
    (median_below ts m e, median_above ts m e, agrees (median-some us nonempty))
  where
    lengths : length ts ≡ length us
    lengths = ground (arith, same (λ y. true), length-count ts, length-count us)

    nonempty : 0 < length us
    nonempty = omega (arith, lengths, median_above ts m e)

    agrees : (n : ℕ) × (median us ≡ some n) → median us ≡ some m
    agrees (n, f) =
        subst (λ z. median us ≡ some z)
          (ground (
            arith,
            lengths,
            same (λ y. ltb y m),
            same (λ y. ltb y n),
            same (λ y. ltb m y),
            same (λ y. ltb n y),
            median_below ts m e,
            median_above ts m e,
            median_below us n f,
            median_above us n f,
            count_split m n us,
            count_split n m us,
          ))
          f
