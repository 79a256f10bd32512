-- ===== src/Paging/Rows.antt =====
-- store/paging.go: the rows of a page, and what the store's page query promises.
use arcade.Prelude.{
  ℕ, zero, suc, ◌≤◌, ◌<◌, ◌≡◌, ◌⊎◌, refl, sym, subst, inl, inr, Bool, true, List, [], ◌∷◌, ◌++◌,
  Option, some, arith, ◌==◌, nat_eq, if◌then◌else◌, ltb, length, take, keep, All, Bool-cases,
}
use arcade.Paging.{BlockRow, last_height}

abbrev pub In : BlockRow → List BlockRow → Type 0
In r [] = ⊥
In r (x ∷ xs) = (x ≡ r) ⊎ In r xs

-- Newest first.
abbrev pub Descending : List BlockRow → Type 0
Descending [] = Unit
Descending (x ∷ xs) = All (λ y. y.block_height ≤ x.block_height) xs × Descending xs

-- What the store's page query promises: the first rows, up to a limit, below a height, or of all.
unfoldable pub below : ℕ → List BlockRow → List BlockRow
below before rows = if before == 0 then rows else keep (λ r. ltb r.block_height before) rows

unfoldable pub page_of : List BlockRow → ℕ → ℕ → Option (List BlockRow)
page_of rows before limit = some (take limit (below before rows))

pub In-append_left : (r : BlockRow) (xs ys : List BlockRow) → In r xs → In r (xs ++ ys)
In-append_left r [] ys h = elim h [ ]
In-append_left r (x ∷ xs) ys (inl e) = inl e
In-append_left r (x ∷ xs) ys (inr h) = inr (In-append_left r xs ys h)

pub In-append_right : (r : BlockRow) (xs ys : List BlockRow) → In r ys → In r (xs ++ ys)
In-append_right r [] ys h = h
In-append_right r (x ∷ xs) ys h = inr (In-append_right r xs ys h)

pub All-In : (P : BlockRow → Type 0) (r : BlockRow) (xs : List BlockRow) → All P xs → In r xs → P r
All-In P r [] a h = elim h [ ]
All-In P r (x ∷ xs) a (inl e) = subst P e a.0
All-In P r (x ∷ xs) a (inr h) = All-In P r xs a.1 h

keep-In :
    (p : BlockRow → Bool) (r : BlockRow) (xs : List BlockRow)
    → In r xs
    → p r ≡ true
    → In r (keep p xs)
keep-In p r [] h t = elim h [ ]
keep-In p r (x ∷ xs) (inl e) t = rw (subst (λ z. p z ≡ true) (sym e) t) (inl e)
keep-In p r (x ∷ xs) (inr h) t = elim (Bool-cases (p x)) [
  | inl b ↦ rw b (inr (keep-In p r xs h t))
  | inr b ↦ rw b (keep-In p r xs h t)
]

pub keep-All :
    (P : BlockRow → Type 0) (p : BlockRow → Bool) (xs : List BlockRow)
    → All P xs
    → All P (keep p xs)
keep-All P p [] a = tt
keep-All P p (x ∷ xs) a = elim (Bool-cases (p x)) [
  | inl b ↦ rw b (a.0, keep-All P p xs a.1)
  | inr b ↦ rw b (keep-All P p xs a.1)
]

keep-Descending :
    (p : BlockRow → Bool) (xs : List BlockRow) → Descending xs → Descending (keep p xs)
keep-Descending p [] d = tt
keep-Descending p (x ∷ xs) d = elim (Bool-cases (p x)) [
  | inl b ↦
      rw b (keep-All (λ y. y.block_height ≤ x.block_height) p xs d.0, keep-Descending p xs d.1)
  | inr b ↦ rw b (keep-Descending p xs d.1)
]

pub below-Descending :
    (before : ℕ) (rows : List BlockRow) → Descending rows → Descending (below before rows)
unfolding below
below-Descending before rows d = elim (Bool-cases (before == 0)) [
  | inl b ↦ rw b d
  | inr b ↦ rw b (keep-Descending (λ r. ltb r.block_height before) rows d)
]

-- The cursor has not passed a height.
abbrev pub Ahead : ℕ → ℕ → Type 0
Ahead before h = (before ≡ 0) ⊎ (h < before)

pub below-In :
    (before : ℕ) (r : BlockRow) (rows : List BlockRow)
    → In r rows
    → Ahead before r.block_height
    → In r (below before rows)
unfolding below
below-In before r rows h a = elim (Bool-cases (before == 0)) [
  | inl b ↦ rw b h
  | inr b ↦ rw b (keep-In (λ r. ltb r.block_height before) r rows h (ground (arith, a, b)))
]

pub take-All : (P : BlockRow → Type 0) (n : ℕ) (xs : List BlockRow) → All P xs → All P (take n xs)
take-All P zero xs a = tt
take-All P (suc n) [] a = tt
take-All P (suc n) (x ∷ xs) a = (a.0, take-All P n xs a.1)

pub take-Descending : (n : ℕ) (xs : List BlockRow) → Descending xs → Descending (take n xs)
take-Descending zero xs d = tt
take-Descending (suc n) [] d = tt
take-Descending (suc n) (x ∷ xs) d =
    (take-All (λ y. y.block_height ≤ x.block_height) n xs d.0, take-Descending n xs d.1)

pub last_height-All :
    (b : ℕ) (row : BlockRow) (rows : List BlockRow)
    → b ≤ row.block_height
    → All (λ y. b ≤ y.block_height) rows
    → b ≤ last_height row rows
last_height-All b row [] h a = h
last_height-All b row (x ∷ rows) h a = last_height-All b x rows a.0 a.1

-- A row is on a page, or the page is full and the row is not above its last one.
pub take-In :
    (n : ℕ) (r : BlockRow) (xs : List BlockRow)
    → Descending xs
    → In r xs
    → In r (take n xs)
      ⊎ ((length (take n xs) ≡ n) × All (λ y. r.block_height ≤ y.block_height) (take n xs))
take-In zero r [] d h = elim h [ ]
take-In (suc n) r [] d h = elim h [ ]
take-In zero r (x ∷ xs) d h = inr (refl, tt)
take-In (suc n) r (x ∷ xs) d (inl e) = inl (inl e)
take-In (suc n) r (x ∷ xs) d (inr h) = elim (take-In n r xs d.1 h) [
  | inl i ↦ inl (inr i)
  | inr (l, a) ↦
      inr (omega (arith, l), (All-In (λ y. y.block_height ≤ x.block_height) r xs d.0 h, a))
]
