-- ===== src/Propagation/Dispatcher/Flight.antt =====
-- services/propagation/dispatcher.go: the transactions in flight pin the commit watermark. Every
-- reachable state of a dispatcher keeps the offsets that the tracker has unfinished equal to the
-- offsets of the transactions in flight.
use arcade.Prelude.{
  ℕ, ◌≡◌, ◌≢◌, sym, ◌∙◌, ap, ◌⊎◌, inl, inr, String, true, false, none, some, arith, string_eq,
  nat_eq, contains, eq_cases,
}
use arcade.Prelude.Map.{
  Map, lookup, insert, delete, lookup-insert_self, lookup-insert_ne, lookup-insert_cases,
  lookup-delete, lookup-delete_ne,
}
use arcade.Propagation.Offsets.{OffsetTracker, add, mark_done}
use arcade.Propagation.Offsets.Laws.{
  is_unfinished, IsTracker, add-is_unfinished, mark_done-is_unfinished, add-IsTracker,
  mark_done-IsTracker,
}

-- The tracker's unfinished offsets are those in flight, each of one transaction.
pub record IsFlight (flight : Map String ℕ) (t : OffsetTracker) : Type 0 where
  pub tracks : IsTracker t
  pub pinned : (tx : String) (o : ℕ) → lookup tx flight ≡ some o → is_unfinished o t ≡ true
  pub owned : (o : ℕ) → is_unfinished o t ≡ true → (tx : String) × (lookup tx flight ≡ some o)
  pub distinct :
      (a b : String) (o : ℕ) → lookup a flight ≡ some o → lookup b flight ≡ some o → a ≡ b

unfinished-in_heap :
    (o : ℕ) (t : OffsetTracker) → is_unfinished o t ≡ true → contains t.heap o ≡ true
unfolding is_unfinished
unfinished-in_heap o t h = ground arith

lookup-delete-some :
    (k j : String) (v : ℕ) (m : Map String ℕ)
    → lookup j (delete k m) ≡ some v
    → (k ≢ j) × (lookup j m ≡ some v)
lookup-delete-some k j v m h = elim (eq_cases k j) [
  | inl (b, x) ↦ absurd (ground (arith, lookup-delete k j m))
  | inr (b, x) ↦ (x, ground (arith, lookup-delete k j m))
]

same_offset :
    (a b : String) (o p : ℕ) (flight : Map String ℕ)
    → a ≡ b
    → lookup a flight ≡ some o
    → lookup b flight ≡ some p
    → o ≡ p
same_offset a b o p flight x ea eb = ground (arith, sym ea ∙ ap (λ k. lookup k flight) x ∙ eb)

absent :
    (b : String) (o : ℕ) (flight : Map String ℕ) (t : OffsetTracker)
    → IsFlight flight t
    → contains t.heap o ≡ false
    → lookup b flight ≢ some o
absent b o flight t v fresh h = ground (arith, fresh, unfinished-in_heap o t (v.pinned b o h))

still_unfinished :
    (o p : ℕ) (t : OffsetTracker)
    → is_unfinished p (mark_done o t) ≡ true
    → (o ≢ p) × (is_unfinished p t ≡ true)
still_unfinished o p t h = (
  λ x. ground (arith, mark_done-is_unfinished o p t, nat_eq.beq_iff o p),
  ground (arith, mark_done-is_unfinished o p t),
)

pub landed-IsFlight :
    (tx : String) (o : ℕ) (flight : Map String ℕ) (t : OffsetTracker)
    → IsFlight flight t
    → lookup tx flight ≡ some o
    → IsFlight (delete tx flight) (mark_done o t)
landed-IsFlight tx o flight t v e = record {
  tracks = mark_done-IsTracker o t v.tracks (unfinished-in_heap o t (v.pinned tx o e));
  pinned = λ b p h.
      let was = lookup-delete-some tx b p flight h in
      elim (eq_cases o p) [
        | inl (q, x) ↦ absurd (was.0 (v.distinct tx b p (e ∙ ap some x) was.1))
        | inr (q, x) ↦ ground (arith, mark_done-is_unfinished o p t, v.pinned b p was.1)
      ];
  owned = λ p h.
      let was = still_unfinished o p t h in
      let (b, at_p) = v.owned p was.1 in
      (
        b,
        lookup-delete_ne tx b flight (λ x. absurd (was.0 (same_offset tx b o p flight x e at_p)))
            ∙ at_p,
      );
  distinct = λ a b p ha hb.
      v.distinct a b p (lookup-delete-some tx a p flight ha).1
        (lookup-delete-some tx b p flight hb).1;
}

pub launched-IsFlight :
    (tx : String) (o : ℕ) (flight : Map String ℕ) (t : OffsetTracker)
    → IsFlight flight t
    → contains t.heap o ≡ false
    → lookup tx flight ≡ none
    → IsFlight (insert tx o flight) (add o t)
launched-IsFlight tx o flight t v fresh e = record {
  tracks = add-IsTracker o t v.tracks fresh;
  pinned = λ b p h. elim (lookup-insert_cases tx b o p flight h) [
    | inl (x, y) ↦ ground (arith, add-is_unfinished o p t v.tracks fresh, nat_eq.beq_iff o p)
    | inr (x, y) ↦ ground (arith, add-is_unfinished o p t v.tracks fresh, v.pinned b p y)
  ];
  owned = λ p h. elim (eq_cases o p) [
    | inl (q, x) ↦ (tx, lookup-insert_self tx o flight ∙ ap some x)
    | inr (q, x) ↦
        let was = v.owned p (ground (arith, add-is_unfinished o p t v.tracks fresh)) in
        (
          was.0,
          lookup-insert_ne tx was.0 o flight
                (λ z. absurd (ground (arith, sym e ∙ ap (λ k. lookup k flight) z ∙ was.1)))
              ∙ was.1,
        )
  ];
  distinct = λ a b p ha hb.
      same a b p (lookup-insert_cases tx a o p flight ha) (lookup-insert_cases tx b o p flight hb);
}
  where
    same :
        (a b : String) (p : ℕ)
        → ((tx ≡ a) × (o ≡ p)) ⊎ ((tx ≢ a) × (lookup a flight ≡ some p))
        → ((tx ≡ b) × (o ≡ p)) ⊎ ((tx ≢ b) × (lookup b flight ≡ some p))
        → a ≡ b
    same a b p (inl x) (inl y) = sym x.0 ∙ y.0
    same a b p (inl x) (inr y) = absurd (absent b o flight t v fresh (y.1 ∙ ap some (sym x.1)))
    same a b p (inr x) (inl y) = absurd (absent a o flight t v fresh (x.1 ∙ ap some (sym y.1)))
    same a b p (inr x) (inr y) = v.distinct a b p x.1 y.1
