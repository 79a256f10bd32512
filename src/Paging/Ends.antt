-- ===== src/Paging/Ends.antt =====
-- store/paging.go: the scan ends. Each page either lowers the cursor or doubles the limit, which the cap
-- bounds.
use arcade.Prelude.{
  ℕ, zero, suc, ◌+◌, ◌-◌, ◌≤◌, ◌<◌, ◌≡◌, ◌≢◌, ◌⊎◌, refl, inl, inr, Bool, false, List, [], ◌∷◌,
  arith, ◌==◌, nat_eq, if◌then◌else◌, ltb, leb, length, take, keep, All, All-mono, Bool-cases,
  ltb→lt, leb-false→lt,
}
use arcade.Paging.{
  BlockRow, Result, done, bad_page_size, list_failed, fn_failed, scan_incomplete, out_of_fuel,
  max_page, Visit, through, below_min, fn_error, Next, stop, go, visit, last_height, advance,
  follow, scan_page, scan, for_each_block_processing,
}
use arcade.Paging.Rows.{In, Descending, below, page_of, below-Descending, take-Descending, take-All}
use arcade.Paging.Cover.{scan-In, last_height-le}

-- How many pages may follow: the heights that the cursor has to go, and the limit's way to the cap.
abbrev ceiling : ℕ → ℕ → ℕ
ceiling top before = if before == 0 then top + 1 else before

abbrev left : ℕ → ℕ → ℕ → ℕ
left top before limit = ceiling top before + (max_page - limit)

kept :
    (before : ℕ) (rows : List BlockRow)
    → All (λ y. y.block_height < before) (keep (λ r. ltb r.block_height before) rows)
kept before [] = tt
kept before (x ∷ xs) = elim (Bool-cases (ltb x.block_height before)) [
  | inl b ↦ rw b (ltb→lt x.block_height before b, kept before xs)
  | inr b ↦ rw b (kept before xs)
]

-- A page holds rows that are under the cursor.
page-under :
    (top before limit : ℕ) (rows : List BlockRow)
    → All (λ y. y.block_height ≤ top) rows
    → All (λ y. y.block_height < ceiling top before) (take limit (below before rows))
unfolding below
page-under top before limit rows a = elim (Bool-cases (before == 0)) [
  | inl b ↦ rw b (
      take-All (λ y. y.block_height < top + 1) limit rows
        (All-mono (λ y. y.block_height ≤ top) (λ y. y.block_height < top + 1) rows
          (λ y h. omega (arith, h)) a))
  | inr b ↦ rw b (
      take-All (λ y. y.block_height < before) limit (keep (λ r. ltb r.block_height before) rows)
        (kept before rows))
]

module _ (fails : BlockRow → Bool) (min_height top : ℕ) where
  -- The scan is over with a result, or has less left to do.
  abbrev Less : ℕ → Next → Type 0
  Less n (stop r) = r ≢ out_of_fuel
  Less n (go before limit) = (0 < limit) × (left top before limit < n)

  advance-Less :
      (before limit : ℕ) (row : BlockRow) (rows : List BlockRow) (v : Visit)
      → 0 < limit
      → Descending (row ∷ rows)
      → row.block_height < ceiling top before
      → Less (left top before limit) (advance fails min_height before limit row rows v)
  unfolding advance
  advance-Less before limit row rows below_min l d u = λ q. absurd (ground (arith, q))
  advance-Less before limit row rows fn_error l d u = λ q. absurd (ground (arith, q))
  advance-Less before limit row rows through l d u =
      elim (Bool-cases (ltb (suc (length rows)) limit)) [
        | inl b ↦ rw b (λ q. absurd (ground (arith, q)))
        | inr b ↦ elim (Bool-cases (row.block_height == last_height row rows)) [
          | inl c ↦ elim (Bool-cases (leb max_page limit)) [
            | inl g ↦ rw (b, c, g) (λ q. absurd (ground (arith, q)))
            | inr g ↦
                rw (b, c, g) (omega (arith, l), omega (arith, l, leb-false→lt max_page limit g))
          ]
          | inr c ↦ elim (Bool-cases (last_height row rows == 0)) [
            | inl g ↦ rw (b, c, g) (λ q. absurd (ground (arith, q)))
            | inr g ↦ rw (b, c, g) (l, lower c)
          ]
        ]
      ]
    where
      lower :
          (row.block_height == last_height row rows) ≡ false
          → left top (last_height row rows + 1) limit < left top before limit
      lower c = ground (arith, u, c, last_height-le row.block_height row rows (omega arith) d.0)

  follow-Less :
      (next : ℕ → ℕ → List BlockRow × Result) (n : ℕ) (seen : List BlockRow) (after : Next)
      → ((before limit : ℕ)
          → 0 < limit
          → left top before limit < n
          → (next before limit).1 ≢ out_of_fuel)
      → Less n after
      → (follow fails min_height next seen after).1 ≢ out_of_fuel
  follow-Less next n seen (stop r) rest h = h
  follow-Less next n seen (go before limit) rest h = rest before limit h.0 h.1

  page-Less :
      (next : ℕ → ℕ → List BlockRow × Result) (before limit : ℕ) (page : List BlockRow)
      → ((b l : ℕ) → 0 < l → left top b l < left top before limit → (next b l).1 ≢ out_of_fuel)
      → 0 < limit
      → Descending page
      → All (λ y. y.block_height < ceiling top before) page
      → (scan_page fails min_height next before limit page).1 ≢ out_of_fuel
  unfolding scan_page
  page-Less next before limit [] rest l d u = λ q. absurd (ground (arith, q))
  page-Less next before limit (row ∷ rows) rest l d u =
      follow-Less next (left top before limit) (visit fails min_height (row ∷ rows)).0
        (advance fails min_height before limit row rows (visit fails min_height (row ∷ rows)).1)
        rest (advance-Less before limit row rows (visit fails min_height (row ∷ rows)).1 l d u.0)

  module _ (rows : List BlockRow) (d : Descending rows)
      (a : All (λ y. y.block_height ≤ top) rows) where
    scan-ends :
        (fuel before limit : ℕ)
        → 0 < limit
        → left top before limit < fuel
        → (scan fails min_height (page_of rows) fuel before limit).1 ≢ out_of_fuel
    unfolding scan page_of
    scan-ends zero before limit l h = absurd (omega (arith, h))
    scan-ends (suc fuel) before limit l h =
        page-Less (scan fails min_height (page_of rows) fuel) before limit
          (take limit (below before rows)) (λ b m k q. scan-ends fuel b m k (omega (arith, q, h))) l
          (take-Descending limit (below before rows) (below-Descending before rows d))
          (page-under top before limit rows a)

-- On a store that answers a page query with the first rows, newest first, below a height, up to a
-- limit: with a page size that is not zero and fuel for the heights and the doublings of the limit, the
-- scan never runs out of fuel; and if it reports no error, each row of a height of at least the
-- minimum, and not 0, has been passed to `fn`.
pub for_each_block_processing_covers :
    (fails : BlockRow → Bool) (min_height top fuel page_size : ℕ) (rows : List BlockRow)
    (r : BlockRow)
    → Descending rows
    → All (λ y. y.block_height ≤ top) rows
    → In r rows
    → min_height ≤ r.block_height
    → 0 < r.block_height
    → 0 < page_size
    → top + max_page + 1 < fuel
    → let (seen, result) =
        for_each_block_processing fails min_height (page_of rows) fuel page_size in
      (result ≢ out_of_fuel) × (In r seen ⊎ (result ≢ done))
unfolding for_each_block_processing
for_each_block_processing_covers fails m top fuel page_size rows r d a i h p size enough =
    elim (Bool-cases (page_size == 0)) [
      | inl b ↦ absurd (ground (arith, b, size))
      | inr b ↦ rw b (
        scan-ends fails m top rows d a fuel 0 page_size size (omega (arith, enough, size)),
        covered,
      )
    ]
  where
    result_cases : (o : Result) → (o ≡ done) ⊎ (o ≢ done)
    result_cases done = inl refl
    result_cases bad_page_size = inr (λ q. absurd (ground (arith, q)))
    result_cases list_failed = inr (λ q. absurd (ground (arith, q)))
    result_cases fn_failed = inr (λ q. absurd (ground (arith, q)))
    result_cases scan_incomplete = inr (λ q. absurd (ground (arith, q)))
    result_cases out_of_fuel = inr (λ q. absurd (ground (arith, q)))

    covered :
        In r (scan fails m (page_of rows) fuel 0 page_size).0
        ⊎ ((scan fails m (page_of rows) fuel 0 page_size).1 ≢ done)
    covered = elim (result_cases (scan fails m (page_of rows) fuel 0 page_size).1) [
      | inl q ↦ inl (scan-In fails m r h p rows d i fuel 0 page_size size (inl refl) q)
      | inr q ↦ inr q
    ]
