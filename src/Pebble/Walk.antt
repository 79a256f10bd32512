-- ===== src/Pebble/Walk.antt =====
-- The operations of the pebble store as one type, and the rule by which an invariant is carried
-- through all of them: it is enough to look at the rows that are rewritten.
use arcade.Prelude.{
  ℕ, ◌+◌, String, ◌≡◌, refl, ◌⊎◌, inl, inr, true, not, ◌&&◌, List, [], ◌∷◌, Option, none, some,
  ◌==◌, string_eq, Bool-cases, Option-cases,
}
use arcade.Prelude.Map.{lookup, insert}
use arcade.Models.Status.{Status, pending_retry, mined, immutable, status_eq, can_transition_from}
use arcade.Models.Transaction.{TransactionStatus}
use arcade.Pebble.Row.{StoredStatus, from_model, merge_status}
use arcade.Pebble.Ops.{
  Store, Io, Error, Outcome, ok, err, write_row, write_status_new, with_row, commit, new_status,
  get_or_insert_status, update_status_returning, update_allowed, bump_retry_count, pending_row,
  set_pending_retry_fields, cleared_row, clear_retry_state, mined_row, set_mined_one,
  set_mined_by_txids, reverted_row, set_status_one, for_each, txids_by_block_hash,
  set_status_by_block_hash, mark_merkle_registered_one, mark_merkle_registered_by_txids,
}

-- The operations on status rows, with their arguments and with what fails in them.
pub data Op : Type 0 where
  get_or_insert : Io → ℕ → TransactionStatus → Op
  update_status : Io → TransactionStatus → Op
  bump_retry : Io → String → Op
  set_pending_retry : Io → ℕ → String → List ℕ → ℕ → String → Op
  clear_retry : Io → ℕ → String → Status → String → Op
  set_mined : (String → Io) → ℕ → String → ℕ → List String → Op
  set_status : Io → (String → Io) → ℕ → String → Status → Op
  mark_registered : (String → Io) → ℕ → List String → Op

unfoldable pub run : Op → Store → Store
run (get_or_insert io now status) s = (get_or_insert_status io now status s).0
run (update_status io update) s = (update_status_returning io update s).0
run (bump_retry io t) s = (bump_retry_count io t s).0
run (set_pending_retry io now t raw next reason) s =
    (set_pending_retry_fields io now t raw next reason s).0
run (clear_retry io now t final extra) s = (clear_retry_state io now t final extra s).0
run (set_mined io now hash height ts) s = (set_mined_by_txids io now hash height ts s).0
run (set_status scan io now hash new) s = (set_status_by_block_hash scan io now hash new s).0
run (mark_registered io stamp ts) s = (mark_merkle_registered_by_txids io stamp ts s).0

unfoldable pub run_all : List Op → Store → Store
run_all [] s = s
run_all (o ∷ ops) s = run_all ops (run o s)

pub Outcome-cases :
    {A : Type 0} (r : Outcome A) → ((a : A) × (r ≡ ok a)) ⊎ ((x : Error) × (r ≡ err x))
Outcome-cases (ok a) = inl (a, refl)
Outcome-cases (err x) = inr (x, refl)

with_row-keeps :
    {A : Type 0} (P : Store → Type 0) (io : Io) (t : String) (s : Store)
    (next : Option StoredStatus → Store × Outcome A)
    → P s
    → (lookup t s.rows ≡ none → P (next none).0)
    → ((e : StoredStatus) → lookup t s.rows ≡ some e → P (next (some e)).0)
    → P (with_row io t s next).0
unfolding with_row
with_row-keeps P io t s next same missing found = elim (Bool-cases io.cancelled) [
  | inl c ↦ rw c same
  | inr c ↦ rw c (elim (Bool-cases io.read_fails) [
    | inl f ↦ rw f same
    | inr f ↦ rw f (elim (Option-cases (lookup t s.rows)) [
      | inl e ↦ rw e (missing e)
      | inr (x, e) ↦ rw e (found x e)
    ])
  ])
]

commit-keeps :
    {A : Type 0} (P : Store → Type 0) (io : Io) (s s' : Store) (a : A)
    → P s
    → P s'
    → P (commit io s s' a).0
unfolding commit
commit-keeps P io s s' a same new = elim (Bool-cases io.write_fails) [
  | inl e ↦ rw e same
  | inr e ↦ rw e new
]

-- A loop keeps what each of its turns keeps.
for_each-keeps :
    {A : Type 0} (P : Store → Type 0) (turn : String → Store → Store × Outcome (Option A))
    → ((t : String) (s : Store) → P s → P (turn t s).0)
    → (ts : List String) (s : Store) → P s
    → P (for_each turn ts s).0
unfolding for_each
for_each-keeps P turn keep [] s h = h
for_each-keeps P turn keep (t ∷ ts) s h =
    let rest = for_each-keeps P turn keep ts (turn t s).0 (keep t s h) in
    elim (Outcome-cases (turn t s).1) [
      | inl (a, e) ↦ rw (e, for_each) rest
      | inr (x, e) ↦ rw (e, for_each) (keep t s h)
    ]

-- `P` is to be kept; `R` holds between a row and what is written over it in a batch with its index
-- entries, `C` where the row alone is written.
module _ (P : Store → Type 0) (R C : String → StoredStatus → StoredStatus → Type 0) where
  -- What an operation has to meet: its rewrites, on the rows that its guards let through.
  abbrev pub Admits : Op → Type 0
  Admits (get_or_insert io now status) =
      (s : Store)
      → P s
      → lookup status.tx_id s.rows ≡ none
      → P (write_status_new (from_model (new_status now status)) s)
  Admits (update_status io update) =
      (e : StoredStatus) → update_allowed update e ≡ true → R update.tx_id e (merge_status e update)
  Admits (bump_retry io t) =
      (e : StoredStatus) → C t e (record e { retry_count = e.retry_count + 1 })
  Admits (set_pending_retry io now t raw next reason) =
      (e : StoredStatus)
      → can_transition_from pending_retry e.status ≡ true
      → R t e (pending_row now raw next reason e)
  Admits (clear_retry io now t final extra) =
      (e : StoredStatus) → R t e (cleared_row now final extra e)
  Admits (set_mined io now hash height ts) =
      (t : String) (e : StoredStatus)
      → can_transition_from mined e.status ≡ true
      → R t e (mined_row now hash height e)
  Admits (set_status scan io now hash new) =
      (t : String) (e : StoredStatus)
      → (e.block_hash == hash && not (e.status == immutable)) ≡ true
      → R t e (reverted_row now new e)
  Admits (mark_registered io stamp ts) =
      (t : String) (e : StoredStatus) → C t e (record e { merkle_registered_ns = stamp })

  module _
      (write : (s : Store) (t : String) (e u : StoredStatus)
        → P s
        → lookup t s.rows ≡ some e
        → R t e u
        → P (write_row t e u s))
      (change : (s : Store) (t : String) (e u : StoredStatus)
        → P s
        → lookup t s.rows ≡ some e
        → C t e u
        → P (record s { rows = insert t u s.rows })) where
    set_mined_one-keeps :
        (io : Io) (now : ℕ) (hash : String) (height : ℕ) (t : String) (s : Store)
        → ((e : StoredStatus)
            → can_transition_from mined e.status ≡ true
            → R t e (mined_row now hash height e))
        → P s
        → P (set_mined_one io now hash height t s).0
    unfolding set_mined_one
    set_mined_one-keeps io now hash height t s a v =
        with_row-keeps P io t s _ v (λ h. v)
          λ e h. elim (Bool-cases (can_transition_from mined e.status)) [
            | inl b ↦ rw b (commit-keeps P io s _ _ v (write s t e _ v h (a e b)))
            | inr b ↦ rw b v
          ]

    set_status_one-keeps :
        (io : Io) (now : ℕ) (hash : String) (new : Status) (t : String) (s : Store)
        → ((e : StoredStatus)
            → (e.block_hash == hash && not (e.status == immutable)) ≡ true
            → R t e (reverted_row now new e))
        → P s
        → P (set_status_one io now hash new t s).0
    unfolding set_status_one
    set_status_one-keeps io now hash new t s a v = elim (Bool-cases io.read_fails) [
      | inl f ↦ rw f v
      | inr f ↦ rw f (elim (Option-cases (lookup t s.rows)) [
        | inl e ↦ rw e v
        | inr (e, h) ↦
            rw h (elim (Bool-cases (e.block_hash == hash && not (e.status == immutable))) [
              | inl b ↦ rw b (commit-keeps P io s _ _ v (write s t e _ v h (a e b)))
              | inr b ↦ rw b v
            ])
      ])
    ]

    mark_merkle_registered_one-keeps :
        (io : Io) (stamp : ℕ) (t : String) (s : Store)
        → ((e : StoredStatus) → C t e (record e { merkle_registered_ns = stamp }))
        → P s
        → P (mark_merkle_registered_one io stamp t s).0
    unfolding mark_merkle_registered_one
    mark_merkle_registered_one-keeps io stamp t s a v =
        with_row-keeps P io t s _ v (λ h. v)
          λ e h. commit-keeps P io s _ _ v (change s t e _ v h (a e))

    pub run-keeps : (o : Op) (s : Store) → Admits o → P s → P (run o s)
    unfolding run get_or_insert_status update_status_returning bump_retry_count
        set_pending_retry_fields clear_retry_state set_mined_by_txids set_status_by_block_hash
        mark_merkle_registered_by_txids
    run-keeps (get_or_insert io now status) s a v =
        with_row-keeps P io status.tx_id s _ v (λ h. commit-keeps P io s _ _ v (a s v h)) (λ e h. v)
    run-keeps (update_status io update) s a v =
        with_row-keeps P io update.tx_id s _ v (λ h. v)
          λ e h. elim (Bool-cases (update_allowed update e)) [
            | inl b ↦ rw b (commit-keeps P io s _ _ v (write s update.tx_id e _ v h (a e b)))
            | inr b ↦ rw b v
          ]
    run-keeps (bump_retry io t) s a v =
        with_row-keeps P io t s _ v (λ h. v)
          λ e h. commit-keeps P io s _ _ v (change s t e _ v h (a e))
    run-keeps (set_pending_retry io now t raw next reason) s a v =
        with_row-keeps P io t s _ v (λ h. v)
          λ e h. elim (Bool-cases (can_transition_from pending_retry e.status)) [
            | inl b ↦ rw b (commit-keeps P io s _ _ v (write s t e _ v h (a e b)))
            | inr b ↦ rw b v
          ]
    run-keeps (clear_retry io now t final extra) s a v =
        with_row-keeps P io t s _ v (λ h. v)
          λ e h. commit-keeps P io s _ _ v (write s t e _ v h (a e))
    run-keeps (set_mined io now hash height ts) s a v =
        for_each-keeps P _ (λ t s' v'. set_mined_one-keeps (io t) now hash height t s' (a t) v') ts
          s v
    run-keeps (set_status scan io now hash new) s a v = elim (Bool-cases scan.cancelled) [
      | inl c ↦ rw c v
      | inr c ↦ rw c (elim (Bool-cases scan.read_fails) [
        | inl f ↦ rw f v
        | inr f ↦ rw f (
            for_each-keeps P _ (λ t s' v'. set_status_one-keeps (io t) now hash new t s' (a t) v')
              (txids_by_block_hash hash s.index) s v)
      ])
    ]
    run-keeps (mark_registered io stamp ts) s a v =
        for_each-keeps P _ (λ t s' v'. mark_merkle_registered_one-keeps (io t) stamp t s' (a t) v')
          ts s v
