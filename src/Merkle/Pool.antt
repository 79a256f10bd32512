-- ===== src/Merkle/Pool.antt =====
-- merkleservice/pool.go: a batch of registrations that the pool sends to every endpoint whose breaker is
-- closed, and the answers that it merges. The goroutines of the sends are not modelled: `answers` says what an
-- endpoint's batch gave for the registration at an index, and `calls` lists the calls that were recorded
-- at an endpoint meanwhile, in their order.
use arcade.Prelude.{
  ℕ, zero, suc, ◌+◌, ◌-◌, String, Bool, true, false, not, ◌&&◌, ◌||◌, List, [], ◌∷◌, ◌++◌, map,
  Option, none, some, if◌then◌else◌, length, keep,
}
use arcade.Merkle.Answers.{CallError, no_healthy_endpoints, merge_errors, permanent_rejection}
use arcade.Merkle.Catchup.{Registration}
use arcade.Merkle.Endpoint.{Endpoint, record_call, queue}
pub mod Everywhere

abbrev pub replicate : {A : Type 0} → ℕ → A → List A
replicate zero x = []
replicate (suc n) x = x ∷ replicate n x

unfoldable pub closed_endpoints : List Endpoint → List Endpoint
closed_endpoints eps = keep (λ ep. not ep.is_open) eps

abbrev pub accepted : Option CallError → Bool
accepted none = true
accepted (some e) = false

-- What the calls that an endpoint answered do to its breaker.
unfoldable pub record_calls : ℕ → List (Bool × ℕ × Option CallError) → Endpoint → Endpoint
record_calls threshold [] ep = ep
record_calls threshold ((ended, now, err) ∷ calls) ep =
    record_calls threshold calls (record_call threshold ended now err ep)

-- The answers for one registration, with one for each endpoint that was not asked.
unfoldable pub answers_for :
    (String → ℕ → Option CallError) → List Endpoint → List Endpoint → ℕ → List (Option CallError)
answers_for answers eps targets j =
    map (λ ep. answers ep.url j) targets
    ++ replicate (length eps - length targets) (some no_healthy_endpoints)

unfoldable pub merge_all :
    Bool
    → (String → ℕ → Option CallError)
    → List Endpoint
    → List Endpoint
    → ℕ
    → List Registration
    → List (Option CallError)
merge_all ended answers eps targets j [] = []
merge_all ended answers eps targets j (reg ∷ regs) =
    merge_errors ended (answers_for answers eps targets j)
    ∷ merge_all ended answers eps targets (suc j) regs

-- Behind every success of the pool, what the endpoint did not accept or was not asked is owed.
unfoldable pub owe :
    (ℕ → Option CallError)
    → Bool
    → ℕ
    → List Registration
    → List (Option CallError)
    → Endpoint
    → Endpoint
owe answers asked j [] out ep = ep
owe answers asked j (reg ∷ regs) [] ep = ep
owe answers asked j (reg ∷ regs) (some e ∷ out) ep = owe answers asked (suc j) regs out ep
owe answers asked j (reg ∷ regs) (none ∷ out) ep =
    owe answers asked (suc j) regs out (if asked && accepted (answers j) then ep else queue reg ep)

module _ (threshold : ℕ) (ended : Bool) (answers : String → ℕ → Option CallError)
    (calls : String → List (Bool × ℕ × Option CallError)) where
  -- An endpoint after a batch.
  unfoldable pub after_batch : List Registration → List (Option CallError) → Endpoint → Endpoint
  after_batch regs out ep =
      owe (answers ep.url) (not ep.is_open) 0 regs out
        (if ep.is_open then ep else record_calls threshold (calls ep.url) ep)

  unfoldable pub answer_batch :
      List Registration → List Endpoint → List Endpoint → List Endpoint × List (Option CallError)
  answer_batch regs eps [] = (eps, map (λ reg. some no_healthy_endpoints) regs)
  answer_batch regs eps (target ∷ targets) =
      let out = merge_all ended answers eps (target ∷ targets) 0 regs in
      (map (after_batch regs out) eps, out)

  unfoldable pub register_batch_with_results :
      List Registration → List Endpoint → List Endpoint × List (Option CallError)
  register_batch_with_results [] eps = (eps, [])
  register_batch_with_results (reg ∷ regs) eps =
      answer_batch (reg ∷ regs) eps (closed_endpoints eps)

-- `Retain`: what failed, but not for good, is owed by every endpoint.
unfoldable pub retain_one : List Registration → List (Option CallError) → Endpoint → Endpoint
retain_one [] errs ep = ep
retain_one (reg ∷ regs) [] ep = ep
retain_one (reg ∷ regs) (none ∷ errs) ep = retain_one regs errs ep
retain_one (reg ∷ regs) (some e ∷ errs) ep =
    retain_one regs errs (if permanent_rejection e then ep else queue reg ep)

unfoldable pub retain : List Registration → List (Option CallError) → List Endpoint → List Endpoint
retain regs errs eps = map (retain_one regs errs) eps

-- `endpointService.RegisterBatchWithResults`, after the sends: `out` is what they gave.
unfoldable pub register_at :
    ℕ
    → List (Bool × ℕ × Option CallError)
    → List Registration
    → List (Option CallError)
    → Endpoint
    → Endpoint
register_at threshold calls [] out ep = ep
register_at threshold calls (reg ∷ regs) out ep =
    retain_one (reg ∷ regs) out (record_calls threshold calls ep)
