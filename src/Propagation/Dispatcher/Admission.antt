-- ===== src/Propagation/Dispatcher/Admission.antt =====
-- services/propagation/dispatcher.go: what an admission does, and what a release lets go.
use arcade.Prelude.{
  ℕ, ◌≡◌, refl, ap, inl, inr, String, Bool, true, false, not, ◌&&◌, ◌||◌, List, [], ◌∷◌, ◌++◌, some,
  arith, ◌==◌, string_eq, if◌then◌else◌, contains, Bool-cases, keep, contains-append, All, beq_refl,
}
use arcade.Prelude.Map.{Map, lookup, insert, member, lookup-insert, lookup-insert_self}
use arcade.Propagation.Dispatcher.{
  PropagationMsg, Dispatcher, AdmitResult, is_blocking, blocking, waiting_on, register, hold,
  enqueue, place, handle_admit,
}
use arcade.Propagation.Offsets.{add, mark_done}

pub waiting_on-insert :
    (p q : String) (set : List String) (w : Map String (List String))
    → waiting_on (insert p set w) q ≡ (if p == q then set else waiting_on w q)
unfolding waiting_on
waiting_on-insert p q set w = ground (arith, lookup-insert p q set w)

-- Registering adds the child to the sets of the parents, and to no other.
pub register-contains :
    (d c : String) (ps : List String) (w : Map String (List String)) (q : String)
    → contains (waiting_on (register d ps w) q) c
      ≡ ((contains ps q && d == c) || contains (waiting_on w q) c)
unfolding register
register-contains d c [] w q = refl
register-contains d c (p ∷ ps) w q = ground (
  arith,
  register-contains d c ps
      (insert p (if contains (waiting_on w p) d then waiting_on w p else waiting_on w p ++ d ∷ [])
        w)
      q,
  waiting_on-insert p q
      (if contains (waiting_on w p) d then waiting_on w p else waiting_on w p ++ d ∷ []) w,
  contains-append (waiting_on w p) (d ∷ []) c,
  string_eq.beq_iff p q,
  string_eq.beq_iff d c,
)

keep-empty : (p : String → Bool) (xs : List String) → keep p xs ≡ [] → All (λ x. p x ≡ false) xs
keep-empty p [] h = tt
keep-empty p (x ∷ xs) h = elim (Bool-cases (p x)) [
  | inl e ↦ absurd (ground (arith, rw e at h))
  | inr e ↦ (e, keep-empty p xs (rw e at h))
]

contains-keep :
    (p : String → Bool) (xs : List String) (x : String)
    → p x ≡ true
    → contains (keep p xs) x ≡ contains xs x
contains-keep p [] x h = refl
contains-keep p (y ∷ ys) x h = ground (arith, contains-keep p ys x h, string_eq.beq_iff y x)

-- A transaction with an input in flight is a waiter of it, for every such input.
abbrev pub IsRegistered : PropagationMsg → Dispatcher → Dispatcher → Type 0
IsRegistered msg s s' =
    (p : String)
    → (not (contains msg.input_tx_ids p && is_blocking s.in_flight msg.tx_id p)
        || contains (waiting_on s'.waiters p) msg.tx_id)
      ≡ true

-- The three outcomes of an admission, each with all that it does to the state.
pub data Admission (msg : PropagationMsg) (offset : ℕ) (s s' : Dispatcher)
    : AdmitResult → Type 0 where
  is_duplicate :
      member msg.tx_id s.in_flight ≡ true
      → s' ≡ record s { tracker = mark_done offset (add offset s.tracker) }
      → Admission msg offset s s' AdmitResult.duplicate
  is_admitted :
      member msg.tx_id s.in_flight ≡ false
      → All (λ p. is_blocking s.in_flight msg.tx_id p ≡ false) msg.input_tx_ids
      → s' ≡ record s {
        in_flight = insert msg.tx_id offset s.in_flight;
        tracker = add offset s.tracker;
        pending = s.pending ++ msg ∷ [];
      }
      → Admission msg offset s s' AdmitResult.admitted
  is_held :
      member msg.tx_id s.in_flight ≡ false
      → (p : String) × (is_blocking s.in_flight msg.tx_id p ≡ true)
      → IsRegistered msg s s'
      → lookup msg.tx_id s'.held ≡ some msg
      → s'.in_flight ≡ insert msg.tx_id offset s.in_flight
      → s'.tracker ≡ add offset s.tracker
      → s'.pending ≡ s.pending
      → Admission msg offset s s' AdmitResult.held

keep-head : (p : String → Bool) (xs ys : List String) (y : String) → keep p xs ≡ y ∷ ys → p y ≡ true
keep-head p [] ys y h = absurd (ground (arith, h))
keep-head p (x ∷ xs) ys y h = elim (Bool-cases (p x)) [
  | inl e ↦ ground (arith, e, rw e at h)
  | inr e ↦ keep-head p xs ys y (rw e at h)
]

place-Admission :
    (msg : PropagationMsg) (offset : ℕ) (s : Dispatcher) (ps : List String)
    → member msg.tx_id s.in_flight ≡ false
    → blocking s.in_flight msg ≡ ps
    → let (s', r) = place msg ps (record s {
      in_flight = insert msg.tx_id offset s.in_flight;
      tracker = add offset s.tracker;
    }) in
      Admission msg offset s s' r
unfolding place blocking hold enqueue
place-Admission msg offset s [] h e =
    is_admitted h (keep-empty (is_blocking s.in_flight msg.tx_id) msg.input_tx_ids e) refl
place-Admission msg offset s (p ∷ ps) h e =
    is_held h (p, keep-head _ msg.input_tx_ids ps p e)
      (λ q. ground (
        arith,
        register-contains msg.tx_id msg.tx_id (p ∷ ps) s.waiters q,
        contains-keep (is_blocking s.in_flight msg.tx_id) msg.input_tx_ids q,
        ap (λ xs. contains xs q) e,
        beq_refl msg.tx_id,
      ))
      (lookup-insert_self msg.tx_id msg s.held) refl refl refl

-- An admission has one of three outcomes. A transaction that is in flight is a duplicate: its offset is
-- added to the tracker and done, and nothing else changes. Otherwise its offset pins the watermark and it enters the
-- flight; when no input of it blocks it goes to the end of the batch, and nothing else changes; when one blocks it is held,
-- is registered with every input that blocks it, and the batch stays.
pub handle_admit-Admission :
    (msg : PropagationMsg) (offset : ℕ) (s : Dispatcher)
    → let (s', r) = handle_admit msg offset s in Admission msg offset s s' r
unfolding handle_admit
handle_admit-Admission msg offset s = elim (Bool-cases (member msg.tx_id s.in_flight)) [
  | inl e ↦ rw e (is_duplicate e refl)
  | inr e ↦ rw e (place-Admission msg offset s (blocking s.in_flight msg) e refl)
]
