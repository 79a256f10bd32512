-- ===== src/Paging/Cover.antt =====
-- store/paging.go: the scan misses no row, and it ends.
use arcade.Prelude.{
  ℕ, zero, suc, ◌≤◌, ◌<◌, ◌≡◌, ◌≢◌, ◌⊎◌, refl, sym, ◌∙◌, inl, inr, Bool, List, [], ◌∷◌, arith, ◌==◌,
  nat_eq, ltb, leb, length, take, All, Bool-cases, ltb→lt,
}
use arcade.Paging.{
  BlockRow, Result, done, bad_page_size, list_failed, fn_failed, scan_incomplete, out_of_fuel,
  max_page, Visit, through, below_min, fn_error, Next, stop, go, visit, last_height, advance,
  follow, scan_page, scan,
}
use arcade.Paging.Rows.{
  In, Descending, below, page_of, In-append_left, In-append_right, All-In, below-Descending, Ahead,
  below-In, take-Descending, last_height-All, take-In,
}

-- The rows that `fn` is not called on are below the minimum, unless it fails.
visit-In :
    (fails : BlockRow → Bool) (min_height : ℕ) (r : BlockRow) (page : List BlockRow)
    → Descending page
    → (visit fails min_height page).1 ≢ fn_error
    → min_height ≤ r.block_height
    → In r page
    → In r (visit fails min_height page).0
unfolding visit
visit-In fails m r [] d v h i = elim i [ ]
visit-In fails m r (x ∷ xs) d v h i = elim (Bool-cases (ltb x.block_height m)) [
  | inl b ↦ absurd (omega (arith, h, ltb→lt x.block_height m b, highest i))
  | inr b ↦ elim (Bool-cases (fails x)) [
    | inl f ↦ absurd ((rw (b, f) at v) refl)
    | inr f ↦
        rw (b, f)
          (elim i [ inl e ↦ inl e | inr j ↦ inr (visit-In fails m r xs d.1 (rw (b, f) at v) h j) ])
  ]
]
  where
    highest : In r (x ∷ xs) → r.block_height ≤ x.block_height
    highest j = All-In (λ y. y.block_height ≤ x.block_height) r (x ∷ xs) (omega arith, d.0) j

pub last_height-le :
    (b : ℕ) (row : BlockRow) (rows : List BlockRow)
    → row.block_height ≤ b
    → All (λ y. y.block_height ≤ b) rows
    → last_height row rows ≤ b
last_height-le b row [] h a = h
last_height-le b row (x ∷ rows) h a = last_height-le b x rows a.0 a.1

-- A page on which the loop meets the minimum ends below it.
visit-below :
    (fails : BlockRow → Bool) (min_height : ℕ) (x : BlockRow) (xs : List BlockRow)
    → Descending (x ∷ xs)
    → (visit fails min_height (x ∷ xs)).1 ≡ below_min
    → last_height x xs < min_height
unfolding visit
visit-below fails m x [] d e = elim (Bool-cases (ltb x.block_height m)) [
  | inl b ↦ ltb→lt x.block_height m b
  | inr b ↦ absurd (ground (arith, b, e))
]
visit-below fails m x (y ∷ ys) d e = elim (Bool-cases (ltb x.block_height m)) [
  | inl b ↦ omega (arith, last_height-le x.block_height y ys d.0.0 d.0.1, ltb→lt x.block_height m b)
  | inr b ↦ elim (Bool-cases (fails x)) [
    | inl f ↦ absurd (ground (arith, b, f, e))
    | inr f ↦ visit-below fails m y ys d.1 (rw (b, f) at e)
  ]
]

module _ (fails : BlockRow → Bool) (min_height : ℕ) (r : BlockRow)
    (wanted : min_height ≤ r.block_height) (positive : 0 < r.block_height) where
  -- What a page leaves to do for a row: it is seen, or it is ahead of the cursor that goes on.
  abbrev Served : List BlockRow → Next → Type 0
  Served seen (stop done) = In r seen
  Served seen (stop _) = Unit
  Served seen (go before limit) = (In r seen ⊎ Ahead before r.block_height) × (0 < limit)

  -- The row is on the page, or the page is full and the row is at most at its last height.
  abbrev Placed : ℕ → BlockRow → List BlockRow → Type 0
  Placed limit row rows =
      In r (row ∷ rows) ⊎ ((suc (length rows) ≡ limit) × (r.block_height ≤ last_height row rows))

  advance-through :
      (before limit : ℕ) (row : BlockRow) (rows seen : List BlockRow)
      → 0 < limit
      → Ahead before r.block_height
      → In r seen ⊎ ((suc (length rows) ≡ limit) × (r.block_height ≤ last_height row rows))
      → Served seen (advance fails min_height before limit row rows through)
  unfolding advance
  advance-through before limit row rows seen l a p =
      elim (Bool-cases (ltb (suc (length rows)) limit)) [
        | inl b ↦ rw b (elim p [
          | inl i ↦ i
          | inr (q, h) ↦ absurd (omega (arith, q, ltb→lt (suc (length rows)) limit b))
        ])
        | inr b ↦ elim (Bool-cases (row.block_height == last_height row rows)) [
          | inl c ↦ elim (Bool-cases (leb max_page limit)) [
            | inl g ↦ rw (b, c, g) tt
            | inr g ↦ rw (b, c, g) (inr a, omega (arith, l))
          ]
          | inr c ↦ elim (Bool-cases (last_height row rows == 0)) [
            | inl g ↦
                rw (b, c, g)
                  (elim p [ inl i ↦ i | inr (q, h) ↦ absurd (ground (arith, h, positive, g)) ])
            | inr g ↦
                rw (b, c, g)
                  (elim p [ inl i ↦ inl i | inr (q, h) ↦ inr (inr (omega (arith, h))) ], l)
          ]
        ]
      ]

  advance-Served :
      (before limit : ℕ) (row : BlockRow) (rows : List BlockRow)
      → 0 < limit
      → Descending (row ∷ rows)
      → Ahead before r.block_height
      → Placed limit row rows
      → let (seen, v) = visit fails min_height (row ∷ rows) in
        Served seen (advance fails min_height before limit row rows v)
  unfolding advance
  advance-Served before limit row rows l d a p =
      by_visit (visit fails min_height (row ∷ rows)).1 refl
    where
      on_page :
          (v : Visit)
          → (visit fails min_height (row ∷ rows)).1 ≡ v
          → v ≢ fn_error
          → In r (row ∷ rows)
          → In r (visit fails min_height (row ∷ rows)).0
      on_page v e f i = visit-In fails min_height r (row ∷ rows) d (λ q. f (sym e ∙ q)) wanted i

      by_visit :
          (v : Visit)
          → (visit fails min_height (row ∷ rows)).1 ≡ v
          → Served
              (visit fails min_height (row ∷ rows)).0
              (advance fails min_height before limit row rows v)
      by_visit through e =
          advance-through before limit row rows (visit fails min_height (row ∷ rows)).0 l a
            (elim p [
              | inl i ↦ inl (on_page through e (λ q. absurd (ground (arith, q))) i)
              | inr q ↦ inr q
            ])
      by_visit below_min e = elim p [
        | inl i ↦ on_page below_min e (λ q. absurd (ground (arith, q))) i
        | inr (q, h) ↦ absurd (omega (arith, h, wanted, visit-below fails min_height row rows d e))
      ]
      by_visit fn_error e = tt

  follow-In :
      (next : ℕ → ℕ → List BlockRow × Result) (seen : List BlockRow) (n : Next)
      → ((before limit : ℕ)
          → 0 < limit
          → Ahead before r.block_height
          → (next before limit).1 ≡ done
          → In r (next before limit).0)
      → Served seen n
      → (follow fails min_height next seen n).1 ≡ done
      → In r (follow fails min_height next seen n).0
  follow-In next seen (stop done) rest s e = s
  follow-In next seen (stop bad_page_size) rest s e = absurd (ground (arith, e))
  follow-In next seen (stop list_failed) rest s e = absurd (ground (arith, e))
  follow-In next seen (stop fn_failed) rest s e = absurd (ground (arith, e))
  follow-In next seen (stop scan_incomplete) rest s e = absurd (ground (arith, e))
  follow-In next seen (stop out_of_fuel) rest s e = absurd (ground (arith, e))
  follow-In next seen (go before limit) rest (inl i, l) e =
      In-append_left r seen (next before limit).0 i
  follow-In next seen (go before limit) rest (inr a, l) e =
      In-append_right r seen (next before limit).0 (rest before limit l a e)

  page-In :
      (next : ℕ → ℕ → List BlockRow × Result) (before limit : ℕ) (page : List BlockRow)
      → ((b l : ℕ) → 0 < l → Ahead b r.block_height → (next b l).1 ≡ done → In r (next b l).0)
      → 0 < limit
      → Ahead before r.block_height
      → Descending page
      → In r page ⊎ ((length page ≡ limit) × All (λ y. r.block_height ≤ y.block_height) page)
      → (scan_page fails min_height next before limit page).1 ≡ done
      → In r (scan_page fails min_height next before limit page).0
  unfolding scan_page
  page-In next before limit [] rest l a d (inl i) e = elim i [ ]
  page-In next before limit [] rest l a d (inr (q, h)) e = absurd (omega (arith, q, l))
  page-In next before limit (row ∷ rows) rest l a d p e =
      follow-In next (visit fails min_height (row ∷ rows)).0
        (advance fails min_height before limit row rows (visit fails min_height (row ∷ rows)).1)
        rest (advance-Served before limit row rows l d a (placed p)) e
    where
      placed :
          In r (row ∷ rows)
            ⊎ ((suc (length rows) ≡ limit)
                × All (λ y. r.block_height ≤ y.block_height) (row ∷ rows))
          → Placed limit row rows
      placed (inl i) = inl i
      placed (inr (q, h)) = inr (q, last_height-All r.block_height row rows h.0 h.1)

  module _ (rows : List BlockRow) (d : Descending rows) (there : In r rows) where
    pub scan-In :
        (fuel before limit : ℕ)
        → 0 < limit
        → Ahead before r.block_height
        → (scan fails min_height (page_of rows) fuel before limit).1 ≡ done
        → In r (scan fails min_height (page_of rows) fuel before limit).0
    unfolding scan page_of
    scan-In zero before limit l a e = absurd (ground (arith, e))
    scan-In (suc fuel) before limit l a e =
        page-In (scan fails min_height (page_of rows) fuel) before limit
          (take limit (below before rows)) (scan-In fuel) l a
          (take-Descending limit (below before rows) (below-Descending before rows d))
          (take-In limit r (below before rows) (below-Descending before rows d)
            (below-In before r rows there a))
          e
