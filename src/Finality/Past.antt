-- ===== src/Finality/Past.antt =====
-- finality/mtp.go: the median time past of a chain, from the times of its blocks alone, and that the
-- window of the checker gives it.
use arcade.Prelude.{
  ℕ, zero, suc, ◌+◌, ◌-◌, ◌%◌, ◌^◌, ◌≤◌, ◌≡◌, ◌⊎◌, refl, ap, sym, ◌∙◌, inl, inr, List, [], ◌∷◌,
  ◌++◌, Option, none, some, arith, ◌==◌, nat_eq, leb, Bool-cases, if◌then◌else◌,
}
use arcade.Finality.Median.{median}
use arcade.Finality.Checker.{Tip, View, timestamps_of, window, window_median}

-- The times of the last `n` blocks of a chain up to a height, all of them where there are fewer.
abbrev pub latest_times : ℕ → (ℕ → ℕ) → ℕ → List ℕ
latest_times zero time height = []
latest_times (suc n) time zero = time 0 ∷ []
latest_times (suc n) time (suc height) = latest_times n time height ++ time (suc height) ∷ []

-- The median time past of BIP113: the median of the times of the last eleven blocks.
abbrev pub median_time_past : (ℕ → ℕ) → ℕ → ℕ
median_time_past time height = elim (median (latest_times 11 time height)) [ none ↦ 0 | some m ↦ m ]

-- The headers of a chain by first height and count.
abbrev pub headers_of : (ℕ → ℕ) → ℕ → ℕ → List (Option ℕ)
headers_of time start zero = []
headers_of time start (suc count) = some (time start) ∷ headers_of time (start + 1) count

-- The reader of a tip answers with headers of the chain below it, or fails.
abbrev pub Reads : (ℕ → ℕ) → (ℕ → ℕ → Option (List (Option ℕ))) → Type 0
Reads time headers =
    (start count : ℕ)
    → (headers start count ≡ none) ⊎ (headers start count ≡ some (headers_of time start count))

times_from : (ℕ → ℕ) → ℕ → ℕ → List ℕ
times_from time start count = timestamps_of (headers_of time start count)

times_from-snoc :
    (time : ℕ → ℕ) (start count : ℕ)
    → times_from time start (suc count) ≡ times_from time start count ++ time (start + count) ∷ []
unfolding times_from timestamps_of
times_from-snoc time start zero = ap (λ n. time n ∷ []) (omega arith)
times_from-snoc time start (suc count) = ap (time start ∷◌) (
    times_from-snoc time (start + 1) count
    ∙ ap (λ n. times_from time (start + 1) count ++ time n ∷ []) (omega arith))

latest_times-full :
    (n : ℕ) (time : ℕ → ℕ) (height : ℕ)
    → n ≤ height + 1
    → latest_times n time height ≡ times_from time (height + 1 - n) n
unfolding times_from timestamps_of
latest_times-full zero time height h = refl
latest_times-full (suc zero) time zero h = refl
latest_times-full (suc (suc n)) time zero h = absurd (omega arith)
latest_times-full (suc n) time (suc height) h =
    let start = height + 1 - n in
    ap (λ xs. xs ++ time (suc height) ∷ []) (latest_times-full n time height (omega arith))
    ∙ ap (λ m. times_from time start n ++ time m ∷ []) (omega arith)
    ∙ sym (times_from-snoc time start n)
    ∙ ap (λ m. times_from time m (suc n)) (omega arith)

latest_times-short :
    (n : ℕ) (time : ℕ → ℕ) (height : ℕ)
    → height + 1 ≤ n
    → latest_times n time height ≡ times_from time 0 (suc height)
unfolding times_from timestamps_of
latest_times-short zero time height h = absurd (omega arith)
latest_times-short (suc n) time zero h = refl
latest_times-short (suc n) time (suc height) h =
    ap (λ xs. xs ++ time (suc height) ∷ []) (latest_times-short n time height (omega arith))
    ∙ ap (λ m. times_from time 0 (suc height) ++ time m ∷ []) (omega arith)
    ∙ sym (times_from-snoc time 0 (suc height))

-- The headers of the window of the checker are those of the last eleven blocks.
window-latest_times :
    (time : ℕ → ℕ) (height : ℕ)
    → let (start, count) = window height in
      timestamps_of (headers_of time start count) ≡ latest_times 11 time height
unfolding window times_from
window-latest_times time height = elim (Bool-cases (leb 10 height)) [
  | inl b ↦ rw b (
      ap (λ m. times_from time m 11) (omega arith)
      ∙ sym (latest_times-full 11 time height (ground (arith, b))))
  | inr b ↦
      let wraps : (height + 1) % 2 ^ 32 ≡ suc height = ground (arith, b) in
      rw b (
        ap (λ m. times_from time 0 m) wraps
        ∙ sym (latest_times-short 11 time height (ground (arith, b))))
]

-- The median that the checker takes is the median time past.
pub window_median-median_time_past :
    (time : ℕ → ℕ) (view : View) (tip : Tip) (m : ℕ)
    → Reads time view.headers
    → window_median view tip ≡ some m
    → median_time_past time tip.height ≡ m
unfolding window_median
window_median-median_time_past time view tip m reads e =
    let (start, count) = window tip.height in read (view.headers start count) (reads start count) e
  where
    taken :
        (o : Option ℕ) (k : ℕ)
        → elim o [ none ↦ none | some z ↦ if z == 0 then none else some z ] ≡ some k
        → elim o [ none ↦ 0 | some z ↦ z ] ≡ k
    taken none k q = absurd (ground (arith, q))
    taken (some z) k q = ground (arith, q)

    read :
        (o : Option (List (Option ℕ)))
        → (o ≡ none) ⊎ (o ≡ some (headers_of time (window tip.height).0 (window tip.height).1))
        → elim o [
          | none ↦ none
          | some hs ↦ elim (median (timestamps_of hs)) [
            | none ↦ none
            | some z ↦ if z == 0 then none else some z
          ]
        ]
          ≡ some m
        → median_time_past time tip.height ≡ m
    read o (inl n) q = absurd (ground (arith, rw n at q))
    read o (inr n) q =
        taken (median (latest_times 11 time tip.height)) m
          (rw (n, window-latest_times time tip.height) at q)
