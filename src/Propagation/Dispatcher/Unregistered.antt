-- ===== src/Propagation/Dispatcher/Unregistered.antt =====
-- services/propagation/dispatcher.go: a child that no set of waiters has, and what keeps it out.
use arcade.Prelude.{
  ◌≡◌, refl, sym, ◌∙◌, ap, inl, inr, String, Bool, true, false, not, ◌||◌, List, [], ◌∷◌, none,
  some, arith, ◌==◌, string_eq, if◌then◌else◌, contains, Option-cases, Bool-cases, keep,
}
use arcade.Prelude.Map.{Map, lookup, insert, delete, member, lookup-delete}
use arcade.Propagation.Dispatcher.{PropagationMsg, Dispatcher, waiting_on, leave_set, leave_sets}
use arcade.Propagation.Dispatcher.Admission.{waiting_on-insert}

-- No set of waiters has the child.
abbrev pub Unregistered : String → Map String (List String) → Type 0
Unregistered c w = (p : String) → contains (waiting_on w p) c ≡ false

-- Held, in flight, and in no set of waiters.
abbrev pub IsLost : String → PropagationMsg → Dispatcher → Type 0
IsLost c msg s =
    (lookup c s.held ≡ some msg) × (member c s.in_flight ≡ true) × Unregistered c s.waiters

waiting_on-delete :
    (p q : String) (w : Map String (List String))
    → waiting_on (delete p w) q ≡ (if p == q then [] else waiting_on w q)
unfolding waiting_on
waiting_on-delete p q w = ground (arith, lookup-delete p q w)

contains-keep-false :
    (p : String → Bool) (xs : List String) (c : String)
    → contains xs c ≡ false
    → contains (keep p xs) c ≡ false
contains-keep-false p [] c h = refl
contains-keep-false p (x ∷ xs) c h = ground (arith, contains-keep-false p xs c)

pub delete-Unregistered :
    (c p : String) (w : Map String (List String)) → Unregistered c w → Unregistered c (delete p w)
delete-Unregistered c p w h q = ground (arith, waiting_on-delete p q w, h q)

insert-Unregistered :
    (c p : String) (set : List String) (w : Map String (List String))
    → contains set c ≡ false
    → Unregistered c w
    → Unregistered c (insert p set w)
insert-Unregistered c p set w k h q = ground (arith, waiting_on-insert p q set w, h q)

pub found-Unregistered :
    (c p : String) (set : List String) (w : Map String (List String))
    → lookup p w ≡ some set
    → Unregistered c w
    → contains set c ≡ false
unfolding waiting_on
found-Unregistered c p set w e h =
    ap (λ o. contains (elim o [ none ↦ [] | some set ↦ set ]) c) (sym e) ∙ h p

leave_set-Unregistered :
    (c child p : String) (w : Map String (List String))
    → Unregistered c w
    → Unregistered c (leave_set child p w)
unfolding leave_set
leave_set-Unregistered c child p w h = elim (Option-cases (lookup p w)) [
  | inl e ↦ rw (e, leave_set) h
  | inr (set, e) ↦
      rw (e, leave_set)
        (kept (keep (λ x. not (x == child)) set)
          (contains-keep-false (λ x. not (x == child)) set c (found-Unregistered c p set w e h)))
]
  where
    kept :
        (rest : List String)
        → contains rest c ≡ false
        → Unregistered c (elim rest [ [] ↦ delete p w | x ∷ xs ↦ insert p (x ∷ xs) w ])
    kept [] k = delete-Unregistered c p w h
    kept (x ∷ xs) k = insert-Unregistered c p (x ∷ xs) w k h

pub leave_sets-Unregistered :
    (c child skip : String) (ps : List String) (w : Map String (List String))
    → Unregistered c w
    → Unregistered c (leave_sets child skip ps w)
unfolding leave_sets
leave_sets-Unregistered c child skip [] w h = h
leave_sets-Unregistered c child skip (p ∷ ps) w h =
    elim (Bool-cases (p == "" || p == child || p == skip)) [
      | inl e ↦ rw e (leave_sets-Unregistered c child skip ps w h)
      | inr e ↦ rw e (
          leave_sets-Unregistered c child skip ps (leave_set child p w)
            (leave_set-Unregistered c child p w h))
    ]
