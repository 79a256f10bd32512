-- ===== src/Models/Anchors/Laws.antt =====
-- The history of anchors stays short, ends in the anchor that was appended, and never repeats a block
-- hash twice in a row.
use arcade.Prelude.{
  ℕ, zero, suc, ◌-◌, ◌≤◌, String, ◌≡◌, ◌≢◌, refl, inl, inr, true, false, List, [], ◌∷◌, ◌++◌, some,
  arith, ◌==◌, string_eq, length, get_last?, drop, length-drop, beq→eq, beq_refl, Bool-cases,
}
use arcade.Models.Anchors.{
  OrphanedAnchor, max_orphaned_anchors, cap_history, same_last, append_anchor,
  append_orphaned_anchor,
}

get_last?-append {ℓ} : {A : Type ℓ} (xs : List A) (x : A) → get_last? (xs ++ x ∷ []) ≡ some x
get_last?-append [] x = refl
get_last?-append (y ∷ []) x = refl
get_last?-append (y ∷ z ∷ xs) x = get_last?-append (z ∷ xs) x

get_last?-drop {ℓ} :
    {A : Type ℓ} (n : ℕ) (xs : List A) → suc n ≤ length xs → get_last? (drop n xs) ≡ get_last? xs
get_last?-drop zero xs h = refl
get_last?-drop (suc n) [] h = refl
get_last?-drop (suc n) (x ∷ []) h = absurd (omega arith)
get_last?-drop (suc n) (x ∷ y ∷ xs) h = get_last?-drop n (y ∷ xs) (omega arith)

get_last?-cap_history : {A : Type 0} (xs : List A) → get_last? (cap_history xs) ≡ get_last? xs
unfolding cap_history
get_last?-cap_history xs = ground (arith, get_last?-drop (length xs - 5) xs)

length-cap_history : {A : Type 0} (xs : List A) → length (cap_history xs) ≤ 5
unfolding cap_history
length-cap_history xs = ground (arith, length-drop (length xs - 5) xs)

module _ {A : Type 0} (hash : A → String) where
  -- No two neighbours have one block hash.
  abbrev pub Alternates : List A → Type 0
  Alternates [] = Unit
  Alternates (a ∷ []) = Unit
  Alternates (a ∷ b ∷ xs) = (hash a ≢ hash b) × Alternates (b ∷ xs)

  Alternates-tail : (a : A) (xs : List A) → Alternates (a ∷ xs) → Alternates xs
  Alternates-tail a [] h = tt
  Alternates-tail a (b ∷ xs) h = h.1

  Alternates-drop : (n : ℕ) (xs : List A) → Alternates xs → Alternates (drop n xs)
  Alternates-drop zero xs h = h
  Alternates-drop (suc n) [] h = tt
  Alternates-drop (suc n) (a ∷ xs) h = Alternates-drop n xs (Alternates-tail a xs h)

  Alternates-append :
      (xs : List A) (a : A)
      → Alternates xs
      → same_last hash xs (hash a) ≡ false
      → Alternates (xs ++ a ∷ [])
  unfolding same_last
  Alternates-append [] a h f = tt
  Alternates-append (b ∷ []) a h f = (λ e. ground (arith, beq_refl (hash a)), tt)
  Alternates-append (b ∷ c ∷ xs) a h f = (h.0, Alternates-append (c ∷ xs) a h.1 f)

  Alternates-cap_history : (xs : List A) → Alternates xs → Alternates (cap_history xs)
  unfolding cap_history
  Alternates-cap_history xs h = ground (arith, Alternates-drop (length xs - 5) xs h)

  pub append_anchor-Alternates :
      (history : List A) (a : A) → Alternates history → Alternates (append_anchor hash history a)
  unfolding append_anchor
  append_anchor-Alternates history a h = elim (Bool-cases (same_last hash history (hash a))) [
    | inl e ↦ ground arith
    | inr e ↦
        ground (arith, Alternates-cap_history (history ++ a ∷ []) (Alternates-append history a h e))
  ]

  pub length-append_anchor :
      (history : List A) (a : A) → length history ≤ 5 → length (append_anchor hash history a) ≤ 5
  unfolding append_anchor
  length-append_anchor history a h = ground (arith, length-cap_history (history ++ a ∷ []))

  -- The newest entry carries the block hash that was to be recorded.
  pub append_anchor-last :
      (history : List A) (a : A)
      → hash a ≢ ""
      → same_last hash (append_anchor hash history a) (hash a) ≡ true
  unfolding append_anchor same_last
  append_anchor-last history a n = ground (
    arith,
    beq→eq (hash a) "",
    get_last?-cap_history (history ++ a ∷ []),
    get_last?-append history a,
    beq_refl (hash a),
  )

  pub append_anchor_idem :
      (history : List A) (a : A)
      → append_anchor hash (append_anchor hash history a) a ≡ append_anchor hash history a
  append_anchor_idem history a = elim (Bool-cases (hash a == "")) [
    | inl e ↦ unfold append_anchor in ground arith
    | inr e ↦
        let last =
          append_anchor-last history a (λ p. ground (arith, (string_eq.beq_iff (hash a) "").1 p)) in
        unfold append_anchor in ground (arith, last)
  ]

-- Appending an anchor with a block hash to a history of at most five entries, no two neighbours of
-- which share a block hash, gives such a history again; its newest entry has the anchor's block
-- hash; and appending the same anchor once more changes nothing.
append_orphaned_anchor_bounds :
    (history : List OrphanedAnchor) (anchor : OrphanedAnchor)
    → length history ≤ max_orphaned_anchors
    → Alternates (λ a. a.block_hash) history
    → anchor.block_hash ≢ ""
    → (length (append_orphaned_anchor history anchor) ≤ max_orphaned_anchors)
      × Alternates (λ a. a.block_hash) (append_orphaned_anchor history anchor)
      × (same_last (λ a. a.block_hash) (append_orphaned_anchor history anchor) anchor.block_hash
          ≡ true)
      × (append_orphaned_anchor (append_orphaned_anchor history anchor) anchor
          ≡ append_orphaned_anchor history anchor)
unfolding append_orphaned_anchor
append_orphaned_anchor_bounds history anchor h alt n = (
  length-append_anchor (λ (a : OrphanedAnchor). a.block_hash) history anchor h,
  append_anchor-Alternates (λ (a : OrphanedAnchor). a.block_hash) history anchor alt,
  append_anchor-last (λ (a : OrphanedAnchor). a.block_hash) history anchor n,
  append_anchor_idem (λ (a : OrphanedAnchor). a.block_hash) history anchor,
)
