-- ===== src/Pebble/Guard.antt =====
-- store/pebble/pebble.go: the confirmed rows that the status guards protect, over every history of
-- operations.
use arcade.Prelude.{
  ℕ, String, ◌≡◌, ◌≢◌, refl, ◌∙◌, ◌⊎◌, inl, inr, true, List, [], ◌∷◌, Option, none, some, arith,
  ◌==◌, string_eq, if◌then◌else◌, eq_cases, subst, All, All-mono,
}
use arcade.Prelude.Map.{lookup, insert, lookup-insert_self, lookup-insert_ne}
use arcade.Models.Status.{
  Status, pending_retry, mined, immutable, other, status_eq, can_transition_from,
}
use arcade.Models.Lattice.{IsKnown, IsConfirmed}
use arcade.Models.Transaction.{TransactionStatus}
use arcade.Pebble.Row.{StoredStatus, or_keep_status, merge_status, from_model}
use arcade.Pebble.Ops.{Store, write_row, write_status_new, new_status, update_allowed, mined_row}
use arcade.Pebble.Walk.{
  Op, get_or_insert, update_status, bump_retry, set_pending_retry, clear_retry, set_mined,
  set_status, mark_registered, run, run_all, Admits, run-keeps,
}

-- There is a row under the id, and it satisfies `Q`.
abbrev pub HasRow : (StoredStatus → Type 0) → String → Store → Type 0
HasRow Q t s = (r : StoredStatus) × (lookup t s.rows ≡ some r) × Q r

pub lookup_at :
    (s : Store) (k t : String) (o : Option StoredStatus)
    → k ≡ t
    → lookup k s.rows ≡ o
    → lookup t s.rows ≡ o
lookup_at s k t o x h = rw (← x) h

same_row : (o : Option StoredStatus) (e r : StoredStatus) → o ≡ some e → o ≡ some r → r ≡ e
same_row o e r p q = cc

module _ (Q : StoredStatus → Type 0) (t : String) where
  -- A rewrite keeps `Q`.
  abbrev Keeps : String → StoredStatus → StoredStatus → Type 0
  Keeps k e u = Q e → Q u

  insert-HasRow :
      (s : Store) (k : String) (e u : StoredStatus)
      → HasRow Q t s
      → lookup k s.rows ≡ some e
      → (Q e → Q u)
      → (r : StoredStatus) × (lookup t (insert k u s.rows) ≡ some r) × Q r
  insert-HasRow s k e u (r, found, q) h keep = elim (eq_cases k t) [
    | inl (b, x) ↦ (
      u,
      rw (← x) (lookup-insert_self k u s.rows),
      keep (subst Q (same_row (lookup t s.rows) e r (lookup_at s k t (some e) x h) found) q),
    )
    | inr (b, x) ↦ (r, lookup-insert_ne k t u s.rows x ∙ found, q)
  ]

  write_row-HasRow :
      (s : Store) (k : String) (e u : StoredStatus)
      → HasRow Q t s
      → lookup k s.rows ≡ some e
      → (Q e → Q u)
      → HasRow Q t (write_row k e u s)
  unfolding write_row
  write_row-HasRow = insert-HasRow

  new-HasRow :
      (s : Store) (u : StoredStatus)
      → HasRow Q t s
      → lookup u.tx_id s.rows ≡ none
      → HasRow Q t (write_status_new u s)
  unfolding write_status_new
  new-HasRow s u (r, found, q) h = elim (eq_cases u.tx_id t) [
    | inl (b, x) ↦ absurd (cc (found, lookup_at s u.tx_id t none x h))
    | inr (b, x) ↦ (r, lookup-insert_ne u.tx_id t u s.rows x ∙ found, q)
  ]

  inserted-HasRow :
      (now : ℕ) (status : TransactionStatus) (s : Store)
      → HasRow Q t s
      → lookup status.tx_id s.rows ≡ none
      → HasRow Q t (write_status_new (from_model (new_status now status)) s)
  inserted-HasRow now status s v h =
      new-HasRow s (from_model (new_status now status)) v (unfold from_model new_status in h)

  run_all-HasRow :
      (ops : List Op) (s : Store)
      → All (Admits (HasRow Q t) Keeps Keeps) ops
      → HasRow Q t s
      → HasRow Q t (run_all ops s)
  unfolding run_all
  run_all-HasRow [] s a h = h
  run_all-HasRow (o ∷ ops) s a h = run_all-HasRow ops (run o s) a.1 (
      run-keeps (HasRow Q t) Keeps Keeps (λ s' k e u h' f r. write_row-HasRow s' k e u h' f r)
        (λ s' k e u h' f r. insert-HasRow s' k e u h' f r) o s a.0 h)

-- The operations whose status, if they set one, is a known one, and that are not ClearRetryState.
abbrev pub IsGuarded : Op → Type 0
IsGuarded (update_status io update) = (update.status ≡ other "") ⊎ IsKnown update.status
IsGuarded (clear_retry io now t final extra) = ⊥
IsGuarded _ = Unit {0}

-- Those of them that do not revert a block either.
abbrev pub IsForward : Op → Type 0
IsForward (set_status scan io now hash new) = ⊥
IsForward (clear_retry io now t final extra) = ⊥
IsForward (update_status io update) = (update.status ≡ other "") ⊎ IsKnown update.status
IsForward _ = Unit {0}

-- The status that an allowed update leaves.
allowed-IsConfirmed :
    (new old : Status)
    → (new ≡ other "") ⊎ IsKnown new
    → (if new == other "" then true else can_transition_from new old) ≡ true
    → IsConfirmed old
    → IsConfirmed (or_keep_status new old) × (old ≡ immutable → or_keep_status new old ≡ immutable)
unfolding can_transition_from
allowed-IsConfirmed (other x) old (inl e) a c = ground (arith, string_eq.beq_iff x "")
allowed-IsConfirmed (other x) old (inr k) a c = cc
allowed-IsConfirmed _ old g a c = ground arith

merge_status-IsConfirmed :
    (update : TransactionStatus) (e : StoredStatus)
    → (update.status ≡ other "") ⊎ IsKnown update.status
    → update_allowed update e ≡ true
    → IsConfirmed e.status
    → IsConfirmed (merge_status e update).status
      × (e.status ≡ immutable → (merge_status e update).status ≡ immutable)
unfolding merge_status
merge_status-IsConfirmed update e g a c = allowed-IsConfirmed update.status e.status g a c

lattice_protects_rows :
    (old : Status) → can_transition_from pending_retry old ≡ true → ¬ IsConfirmed old
unfolding can_transition_from
lattice_protects_rows old a (inl e) = ground arith
lattice_protects_rows old a (inr e) = ground arith

mined-not_immutable : (old : Status) → can_transition_from mined old ≡ true → old ≢ immutable
unfolding can_transition_from
mined-not_immutable old a e = ground arith

mined_row-status :
    (now : ℕ) (hash : String) (height : ℕ) (e : StoredStatus)
    → (mined_row now hash height e).status ≡ mined
unfolding mined_row
mined_row-status now hash height e = refl

abbrev IsImmutableRow : StoredStatus → Type 0
IsImmutableRow r = r.status ≡ immutable

abbrev IsConfirmedRow : StoredStatus → Type 0
IsConfirmedRow r = IsConfirmed r.status

module _ (t : String) where
  immutable-Admits :
      (o : Op)
      → IsGuarded o
      → Admits (HasRow IsImmutableRow t) (Keeps IsImmutableRow t) (Keeps IsImmutableRow t) o
  immutable-Admits (get_or_insert io now status) g =
      λ s v h. inserted-HasRow IsImmutableRow t now status s v h
  immutable-Admits (update_status io update) g =
      λ e b i. (merge_status-IsConfirmed update e g b (inr i)).1 i
  immutable-Admits (bump_retry io k) g = λ e i. i
  immutable-Admits (set_pending_retry io now k raw next reason) g =
      λ e b i. absurd (lattice_protects_rows e.status b (inr i))
  immutable-Admits (clear_retry io now k final extra) g = absurd g
  immutable-Admits (set_mined io now hash height ks) g =
      λ k e b i. absurd (mined-not_immutable e.status b i)
  immutable-Admits (set_status scan io now hash new) g = λ k e b i. absurd (ground (arith, b, i))
  immutable-Admits (mark_registered io stamp ks) g = λ k e i. i

  confirmed-Admits :
      (o : Op)
      → IsForward o
      → Admits (HasRow IsConfirmedRow t) (Keeps IsConfirmedRow t) (Keeps IsConfirmedRow t) o
  confirmed-Admits (get_or_insert io now status) g =
      λ s v h. inserted-HasRow IsConfirmedRow t now status s v h
  confirmed-Admits (update_status io update) g =
      λ e b i. (merge_status-IsConfirmed update e g b i).0
  confirmed-Admits (bump_retry io k) g = λ e i. i
  confirmed-Admits (set_pending_retry io now k raw next reason) g =
      λ e b i. absurd (lattice_protects_rows e.status b i)
  confirmed-Admits (clear_retry io now k final extra) g = absurd g
  confirmed-Admits (set_mined io now hash height ks) g =
      λ k e b i. inl (mined_row-status now hash height e)
  confirmed-Admits (set_status scan io now hash new) g = absurd g
  confirmed-Admits (mark_registered io stamp ks) g = λ k e i. i

-- A row that is IMMUTABLE stays in the store and stays IMMUTABLE under every history of operations,
-- failing ones and block reverts included, in which ClearRetryState does not occur and every update
-- sets a known status or none.
pub immutable_row_stays :
    (t : String) (ops : List Op) (s : Store)
    → All IsGuarded ops
    → HasRow (λ r. r.status ≡ immutable) t s
    → HasRow (λ r. r.status ≡ immutable) t (run_all ops s)
immutable_row_stays t ops s g h =
    run_all-HasRow IsImmutableRow t ops s (All-mono _ _ ops (immutable-Admits t) g) h

-- A row that is MINED or IMMUTABLE stays in the store and stays one of the two under every history of
-- operations, failing ones included, in which ClearRetryState does not occur, no block is reverted, and
-- every update sets a known status or none.
final_row_stays :
    (t : String) (ops : List Op) (s : Store)
    → All IsForward ops
    → HasRow (λ r. IsConfirmed r.status) t s
    → HasRow (λ r. IsConfirmed r.status) t (run_all ops s)
final_row_stays t ops s g h =
    run_all-HasRow IsConfirmedRow t ops s (All-mono _ _ ops (confirmed-Admits t) g) h
