-- ===== src/Propagation/Dispatcher/Fuel.antt =====
-- services/propagation/dispatcher.go: the cascade. Its walk ends, since each turn takes a parent off
-- the queue and each child that it adds was an entry of a set of waiters.
use arcade.Prelude.{
  ℕ, ◌+◌, ◌≤◌, ◌<◌, suc, zero, ◌≡◌, refl, ap, inl, inr, String, Bool, not, ◌||◌, List, [], ◌∷◌,
  ◌++◌, Option, none, some, arith, ◌==◌, string_eq, Option-cases, Bool-cases, keep, length,
  length-append,
}
use arcade.Prelude.Map.{Map, lookup, insert, delete}
use arcade.Propagation.Dispatcher.{
  Dispatcher, leave_set, leave_sets, cleanup_waiter_entries, land, CascadedTx, cascade_child,
  cascade_children, report, cascade_walk, entries,
}

length-keep : (p : String → Bool) (xs : List String) → length (keep p xs) ≤ length xs
length-keep p [] = omega arith
length-keep p (x ∷ xs) = ground (arith, length-keep p xs)

entries-delete-le : (p : String) (m : Map String (List String)) → entries (delete p m) ≤ entries m
unfolding entries delete
entries-delete-le p [] = omega arith
entries-delete-le p ((q, set) ∷ m) = ground (arith, entries-delete-le p m)

same_length : (a b : List String) → some a ≡ some b → length a ≡ length b
same_length a b e = ap (λ o. elim o [ none ↦ 0 | some x ↦ length x ]) e

-- What a deletion frees.
entries-delete :
    (p : String) (cs : List String) (m : Map String (List String))
    → lookup p m ≡ some cs
    → entries (delete p m) + length cs ≤ entries m
unfolding entries delete lookup
entries-delete p cs [] h = absurd (ground arith)
entries-delete p cs ((q, set) ∷ m) h = elim (Bool-cases (q == p)) [
  | inl e ↦ rw e (omega (arith, entries-delete-le p m, same_length set cs (rw e at h)))
  | inr e ↦ rw e (omega (arith, entries-delete p cs m (rw e at h)))
]

entries-insert :
    (p : String) (old new : List String) (m : Map String (List String))
    → lookup p m ≡ some old
    → length new ≤ length old
    → entries (insert p new m) ≤ entries m
unfolding entries insert lookup
entries-insert p old new [] h k = absurd (ground arith)
entries-insert p old new ((q, set) ∷ m) h k = elim (Bool-cases (q == p)) [
  | inl e ↦ rw e (omega (arith, k, same_length set old (rw e at h)))
  | inr e ↦ rw e (omega (arith, entries-insert p old new m (rw e at h) k))
]

entries-leave_set :
    (child p : String) (m : Map String (List String)) → entries (leave_set child p m) ≤ entries m
unfolding leave_set
entries-leave_set child p m = elim (Option-cases (lookup p m)) [
  | inl e ↦ rw (e, leave_set) (omega arith)
  | inr (set, e) ↦
      rw (e, leave_set)
        (kept set (keep (λ c. not (c == child)) set) e (length-keep (λ c. not (c == child)) set))
]
  where
    kept :
        (set rest : List String)
        → lookup p m ≡ some set
        → length rest ≤ length set
        → entries (elim rest [ [] ↦ delete p m | c ∷ cs ↦ insert p (c ∷ cs) m ]) ≤ entries m
    kept set [] e h = entries-delete-le p m
    kept set (c ∷ cs) e h = entries-insert p set (c ∷ cs) m e h

entries-leave_sets :
    (child skip : String) (ps : List String) (m : Map String (List String))
    → entries (leave_sets child skip ps m) ≤ entries m
unfolding leave_sets
entries-leave_sets child skip [] m = omega arith
entries-leave_sets child skip (p ∷ ps) m = elim (Bool-cases (p == "" || p == child || p == skip)) [
  | inl e ↦ rw e (entries-leave_sets child skip ps m)
  | inr e ↦ rw e (
      omega (
        arith,
        entries-leave_sets child skip ps (leave_set child p m),
        entries-leave_set child p m,
      ))
]

entries-cleanup :
    (child skip : String) (s : Dispatcher)
    → entries (cleanup_waiter_entries child skip s).waiters ≤ entries s.waiters
unfolding cleanup_waiter_entries
entries-cleanup child skip s = elim (Option-cases (lookup child s.held)) [
  | inl e ↦ rw (e, cleanup_waiter_entries) (omega arith)
  | inr (msg, e) ↦
      rw (e, cleanup_waiter_entries) (entries-leave_sets child skip msg.input_tx_ids s.waiters)
]

pub land-waiters : (tx : String) (s : Dispatcher) → (land tx s).waiters ≡ s.waiters
unfolding land
land-waiters tx s = elim (Option-cases (lookup tx s.in_flight)) [
  | inl e ↦ rw (e, land) refl
  | inr (o, e) ↦ rw (e, land) refl
]

entries-cascade_children :
    (parent : String) (cs : List String) (s : Dispatcher)
    → entries (cascade_children parent cs s).0.waiters ≤ entries s.waiters
unfolding cascade_children cascade_child
entries-cascade_children parent [] s = omega arith
entries-cascade_children parent (c ∷ cs) s = omega (
  arith,
  entries-cascade_children parent cs (cascade_child parent c s).0,
  ap entries (land-waiters c _),
  entries-cleanup c parent s,
)

report-total :
    (rows : List CascadedTx) (o : Option (Dispatcher × List CascadedTx))
    → (r : Dispatcher × List CascadedTx) × (o ≡ some r)
    → (r : Dispatcher × List CascadedTx) × (report rows o ≡ some r)
report-total rows o (r, e) = ((r.0, rows ++ r.1), rw e refl)

pub cascade_walk-total :
    (n : ℕ) (queue : List String) (s : Dispatcher)
    → length queue + entries s.waiters < n
    → (r : Dispatcher × List CascadedTx) × (cascade_walk n queue s ≡ some r)
unfolding cascade_walk
cascade_walk-total zero queue s h = absurd (omega arith)
cascade_walk-total (suc n) [] s h = ((s, []), refl)
cascade_walk-total (suc n) (parent ∷ queue) s h = elim (Option-cases (lookup parent s.waiters)) [
  | inl e ↦ rw (e, cascade_walk) (cascade_walk-total n queue s (omega arith))
  | inr (cs, e) ↦
      rw (e, cascade_walk)
        (report-total _ _ (
          cascade_walk-total n (queue ++ cs) _ (
            omega (
              arith,
              h,
              length-append queue cs,
              entries-delete parent cs s.waiters e,
              entries-cascade_children parent cs (record s { waiters = delete parent s.waiters }),
            ))))
]
