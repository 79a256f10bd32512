-- ===== src/Merkle/Answers.antt =====
-- merkleservice/pool.go: what a call of a merkle service answers, how it is classified, and how the
-- answers of several services are merged. `ended` says whether the caller's context has ended.
use arcade.Prelude.{
  ℕ, ◌≤◌, ◌≡◌, ◌⊎◌, refl, sym, ap, ◌∙◌, inl, inr, Bool, true, false, not, ◌&&◌, ◌||◌, List, [], ◌∷◌,
  Option, none, some, arith, ◌==◌, nat_eq, if◌then◌else◌, ltb, leb, All, Bool-cases,
}

-- An error: an HTTP status of /watch, /reprocess or /health, a breaker that is open, or any other.
pub data CallError : Type 0 where
  register_error : ℕ → CallError
  reprocess_error : ℕ → CallError
  probe_error : ℕ → CallError
  no_healthy_endpoints : CallError
  transport : CallError

pub data Outcome : Type 0 where
  ok : Outcome
  canceled : Outcome
  network : Outcome
  err_5xx : Outcome
  auth : Outcome
  err_4xx : Outcome

unfoldable pub classify_code : ℕ → Outcome × Bool
classify_code code =
    if leb 500 code
    then (err_5xx, true)
    else if code == 401 || code == 403
    then (auth, false)
    else (err_4xx, false)

unfoldable pub classify_error : CallError → Outcome × Bool
classify_error (register_error code) = classify_code code
classify_error (reprocess_error code) = classify_code code
classify_error (probe_error code) = classify_code code
classify_error no_healthy_endpoints = (network, true)
classify_error transport = (network, true)

-- The outcome, and whether it counts toward the breaker.
unfoldable pub classify : Bool → Option CallError → Outcome × Bool
classify ended none = (ok, false)
classify ended (some e) = if ended then (canceled, false) else classify_error e

abbrev pub rank_of : Outcome → ℕ
rank_of ok = 4
rank_of canceled = 0
rank_of network = 1
rank_of err_5xx = 2
rank_of auth = 3
rank_of err_4xx = 4

unfoldable pub err_rank : Bool → CallError → ℕ
err_rank ended e = rank_of (classify ended (some e)).0

-- The loop of the merge, with the best error so far.
unfoldable pub merge_from : Bool → Option CallError → List (Option CallError) → Option CallError
merge_from ended best [] = best
merge_from ended best (none ∷ errs) = none
merge_from ended none (some e ∷ errs) = merge_from ended (some e) errs
merge_from ended (some b) (some e ∷ errs) =
    merge_from ended (if ltb (err_rank ended e) (err_rank ended b) then some e else some b) errs

unfoldable pub merge_errors : Bool → List (Option CallError) → Option CallError
merge_errors ended errs = merge_from ended none errs

-- A refusal of /watch that the same registration would meet again.
unfoldable pub permanent_rejection : CallError → Bool
permanent_rejection (register_error code) =
    not (ltb code 400 || leb 500 code)
    && not (code == 401 || code == 403 || code == 408 || code == 429)
permanent_rejection (reprocess_error code) = false
permanent_rejection (probe_error code) = false
permanent_rejection no_healthy_endpoints = false
permanent_rejection transport = false

abbrev pub In : Option CallError → List (Option CallError) → Type 0
In a [] = ⊥
In a (x ∷ xs) = (x ≡ a) ⊎ In a xs

-- An error that is worth at least as much as this one.
abbrev pub IsBelow : Bool → CallError → Option CallError → Type 0
IsBelow ended e none = ⊥
IsBelow ended e (some x) = err_rank ended e ≤ err_rank ended x

-- The merged answer: none where some answer is none, else an error of the lowest rank.
abbrev pub IsMerged : Bool → List (Option CallError) → Option CallError → Type 0
IsMerged ended errs none = In none errs ⊎ (errs ≡ [])
IsMerged ended errs (some e) = In (some e) errs × All (IsBelow ended e) errs

-- What the rest of the loop makes of the best error so far.
abbrev IsMergedFrom : Bool → CallError → List (Option CallError) → Option CallError → Type 0
IsMergedFrom ended b errs none = In none errs
IsMergedFrom ended b errs (some e) =
    ((b ≡ e) ⊎ In (some e) errs)
    × (err_rank ended e ≤ err_rank ended b)
    × All (IsBelow ended e) errs

module _ (ended : Bool) where
  -- A turn that keeps the lower of two ranks.
  turn-IsMergedFrom :
      (b c e : CallError) (errs : List (Option CallError)) (r : Option CallError)
      → (c ≡ b) ⊎ (c ≡ e)
      → err_rank ended c ≤ err_rank ended b
      → err_rank ended c ≤ err_rank ended e
      → IsMergedFrom ended c errs r
      → IsMergedFrom ended b (some e ∷ errs) r
  turn-IsMergedFrom b c e errs none w l m h = inr h
  turn-IsMergedFrom b c e errs (some x) w l m h = (
    elim (h.0) [
      | inl q ↦ elim w [ inl u ↦ inl (sym u ∙ q) | inr u ↦ inr (inl (ap some (sym u ∙ q))) ]
      | inr i ↦ inr (inr i)
    ],
    omega (arith, h.1, l),
    (omega (arith, h.1, m), h.2),
  )

  merge_from-IsMergedFrom :
      (b : CallError) (errs : List (Option CallError))
      → IsMergedFrom ended b errs (merge_from ended (some b) errs)
  unfolding merge_from
  merge_from-IsMergedFrom b [] = (inl refl, omega arith, tt)
  merge_from-IsMergedFrom b (none ∷ errs) = inl refl
  merge_from-IsMergedFrom b (some e ∷ errs) =
      elim (Bool-cases (ltb (err_rank ended e) (err_rank ended b))) [
        | inl l ↦ rw l (
            turn-IsMergedFrom b e e errs (merge_from ended (some e) errs) (inr refl)
              (ground (arith, l)) (omega arith) (merge_from-IsMergedFrom e errs))
        | inr l ↦ rw l (
            turn-IsMergedFrom b b e errs (merge_from ended (some b) errs) (inl refl) (omega arith)
              (ground (arith, l)) (merge_from-IsMergedFrom b errs))
      ]

  first-IsMerged :
      (e : CallError) (errs : List (Option CallError)) (r : Option CallError)
      → IsMergedFrom ended e errs r
      → IsMerged ended (some e ∷ errs) r
  first-IsMerged e errs none h = inl (inr h)
  first-IsMerged e errs (some x) h =
      (elim (h.0) [ inl q ↦ inl (ap some q) | inr i ↦ inr i ], (h.1, h.2))

  -- The merged answer of a call is none exactly where some service answered without an error or none was
  -- asked, and else an answer of the lowest rank.
  pub merge_errors-IsMerged :
      (errs : List (Option CallError)) → IsMerged ended errs (merge_errors ended errs)
  unfolding merge_errors merge_from
  merge_errors-IsMerged [] = inr refl
  merge_errors-IsMerged (none ∷ errs) = inl (inl refl)
  merge_errors-IsMerged (some e ∷ errs) =
      first-IsMerged e errs (merge_from ended (some e) errs) (merge_from-IsMergedFrom e errs)
