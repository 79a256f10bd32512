-- ===== src/Propagation/Offsets/Laws.antt =====
-- The tracker as the set of the offsets that were added and are not done.
use arcade.Prelude.{
  ℕ, ◌≤◌, ◌<◌, ◌≡◌, refl, sym, ◌∙◌, inl, inr, Bool, true, false, not, ◌&&◌, ◌||◌, List, [], ◌∷◌,
  none, some, arith, ◌==◌, nat_eq, contains, Bool-cases, beq_refl,
}
use arcade.Propagation.Offsets.{
  OffsetTracker, new_offset_tracker, push, add, mark_done, delete_offset, clean, clean_top, top_of,
  lowest_unfinished,
}

unfoldable pub is_unfinished : ℕ → OffsetTracker → Bool
is_unfinished x t = contains t.heap x && not (contains t.done x)

-- Every element is above `n`.
abbrev pub Above : ℕ → List ℕ → Type 0
Above n [] = Unit
Above n (x ∷ xs) = (n < x) × Above n xs

abbrev pub Ascending : List ℕ → Type 0
Ascending [] = Unit
Ascending (x ∷ xs) = Above x xs × Ascending xs

-- The heap ascends, so that no offset is in it twice, and what is done is in the heap.
pub record IsTracker (t : OffsetTracker) : Type 0 where
  pub ascending : Ascending t.heap
  pub added : (x : ℕ) → contains t.done x ≡ true → contains t.heap x ≡ true

Above-mono : (m n : ℕ) (xs : List ℕ) → m ≤ n → Above n xs → Above m xs
Above-mono m n [] h a = tt
Above-mono m n (x ∷ xs) h a = (omega arith, Above-mono m n xs h a.1)

Above-contains : (n x : ℕ) (xs : List ℕ) → Above n xs → contains xs x ≡ true → n < x
Above-contains n x [] a h = cc
Above-contains n x (y ∷ ys) a h = ground (arith, Above-contains n x ys a.1)

contains-push : (x y : ℕ) (xs : List ℕ) → contains (push x xs) y ≡ (x == y || contains xs y)
unfolding push
contains-push x y [] = refl
contains-push x y (z ∷ zs) = ground (arith, contains-push x y zs)

Above-push : (n x : ℕ) (xs : List ℕ) → n < x → Above n xs → Above n (push x xs)
unfolding push
Above-push n x [] h a = (h, tt)
Above-push n x (y ∷ ys) h a = ground (arith, Above-push n x ys h a.1)

push-Ascending :
    (x : ℕ) (xs : List ℕ) → contains xs x ≡ false → Ascending xs → Ascending (push x xs)
unfolding push
push-Ascending x [] f a = (tt, tt)
push-Ascending x (y ∷ ys) f a =
    ground (arith, push-Ascending x ys, Above-push y x ys, Above-mono x y ys)

contains-delete :
    (x y : ℕ) (xs : List ℕ) → contains (delete_offset x xs) y ≡ (contains xs y && not (x == y))
unfolding delete_offset
contains-delete x y [] = refl
contains-delete x y (z ∷ zs) = ground (arith, contains-delete x y zs)

pub add-is_unfinished :
    (x y : ℕ) (t : OffsetTracker)
    → IsTracker t
    → contains t.heap x ≡ false
    → is_unfinished y (add x t) ≡ (x == y || is_unfinished y t)
unfolding add is_unfinished
add-is_unfinished x y t v f =
    ground (arith, contains-push x y t.heap, v.added x, nat_eq.beq_iff x y)

pub mark_done-is_unfinished :
    (x y : ℕ) (t : OffsetTracker)
    → is_unfinished y (mark_done x t) ≡ (is_unfinished y t && not (x == y))
unfolding mark_done is_unfinished
mark_done-is_unfinished x y t = ground (arith, nat_eq.beq_iff x y)

pub add-contains : (x : ℕ) (t : OffsetTracker) → contains (add x t).heap x ≡ true
unfolding add
add-contains x t = ground (arith, contains-push x x t.heap, beq_refl x)

pub fresh-is_unfinished :
    (x y : ℕ) (t : OffsetTracker) → contains t.heap x ≡ false → x ≡ y → is_unfinished y t ≡ false
unfolding is_unfinished
fresh-is_unfinished x y t f e = rw (sym e, f) refl

pub add-IsTracker :
    (x : ℕ) (t : OffsetTracker) → IsTracker t → contains t.heap x ≡ false → IsTracker (add x t)
unfolding add
add-IsTracker x t v f = record {
  ascending = push-Ascending x t.heap f v.ascending;
  added = λ y h. ground (arith, contains-push x y t.heap, v.added y);
}

pub mark_done-IsTracker :
    (x : ℕ) (t : OffsetTracker) → IsTracker t → contains t.heap x ≡ true → IsTracker (mark_done x t)
unfolding mark_done
mark_done-IsTracker x t v f = record {
  ascending = v.ascending;
  added = λ y h. ground (arith, v.added y, nat_eq.beq_iff x y);
}

pub new_offset_tracker-IsTracker : IsTracker new_offset_tracker
unfolding new_offset_tracker
new_offset_tracker-IsTracker = record { ascending = tt; added = λ x h. cc }

-- The clean-up keeps the invariant and the set.
clean-IsTracker :
    (heap done : List ℕ)
    → IsTracker (record { heap = heap; done = done })
    → IsTracker (clean heap done)
      × ((x : ℕ)
          → is_unfinished x (clean heap done)
            ≡ is_unfinished x (record { heap = heap; done = done }))
unfolding clean
clean-IsTracker [] done v = (v, λ x. refl)
clean-IsTracker (top ∷ rest) done v = elim (Bool-cases (contains done top)) [
  | inr f ↦ rw f (v, λ x. refl)
  | inl e ↦
      let rec = clean-IsTracker rest (delete_offset top done) (popped) in
      rw e (rec.0, λ x. rec.1 x ∙ same e x)
]
  where
    popped : IsTracker (record { heap = rest; done = delete_offset top done })
    popped = record {
      ascending = v.ascending.1;
      added = λ x h. ground (arith, contains-delete top x done, v.added x, nat_eq.beq_iff top x);
    }

    same :
        contains done top ≡ true
        → (x : ℕ)
        → is_unfinished x (record { heap = rest; done = delete_offset top done })
          ≡ is_unfinished x (record { heap = top ∷ rest; done = done })
    same e x =
        unfold is_unfinished in
        ground (
          arith,
          contains-delete top x done,
          Above-contains top x rest v.ascending.0,
          nat_eq.beq_iff top x,
        )

clean-top-unfinished :
    (heap done : List ℕ) (m : ℕ)
    → top_of (clean heap done).heap ≡ some m
    → is_unfinished m (clean heap done) ≡ true
unfolding clean
clean-top-unfinished [] done m h = cc
clean-top-unfinished (top ∷ rest) done m h = elim (Bool-cases (contains done top)) [
  | inl e ↦
      let inner = clean-top-unfinished rest (delete_offset top done) m in ground (arith, inner)
  | inr f ↦ unfold is_unfinished in ground (arith, nat_eq.beq_iff top m)
]

top_of-least :
    (m y : ℕ) (xs : List ℕ) → Ascending xs → top_of xs ≡ some m → contains xs y ≡ true → m ≤ y
top_of-least m y [] a h c = cc
top_of-least m y (x ∷ xs) a h c = ground (arith, Above-contains x y xs a.0)

unfinished_in_heap :
    (x : ℕ) (t : OffsetTracker) → is_unfinished x t ≡ true → contains t.heap x ≡ true
unfolding is_unfinished
unfinished_in_heap x t u = ground arith

unfinished_none :
    (x : ℕ) (t : OffsetTracker) {b : Bool}
    → top_of t.heap ≡ none
    → is_unfinished x t ≡ b
    → b ≡ false
unfolding is_unfinished
unfinished_none x t h u = ground arith

-- What LowestUnfinished answers: the least offset that was added and is not done, or nothing when
-- there is none. Its clean-up keeps the invariant and the set of unfinished offsets.
pub record AnswersLeast (t : OffsetTracker) : Type 0 where
  pub kept : IsTracker (lowest_unfinished t).0
  pub same : (x : ℕ) → is_unfinished x (lowest_unfinished t).0 ≡ is_unfinished x t
  pub least :
      (m : ℕ)
      → (lowest_unfinished t).1 ≡ some m
      → (is_unfinished m t ≡ true) × ((x : ℕ) → is_unfinished x t ≡ true → m ≤ x)
  pub nothing : (lowest_unfinished t).1 ≡ none → (x : ℕ) → is_unfinished x t ≡ false

-- On a tracker that satisfies its invariant, LowestUnfinished answers so.
pub lowest_unfinished-AnswersLeast : (t : OffsetTracker) → IsTracker t → AnswersLeast t
unfolding lowest_unfinished clean_top
lowest_unfinished-AnswersLeast t v = record {
  kept = cleaned.0;
  same = cleaned.1;
  least = λ m h. (
    rw (← cleaned.1 m) (clean-top-unfinished t.heap t.done m h),
    λ x u. top_of-least m x (clean t.heap t.done).heap cleaned.0.ascending h (in_heap x u),
  );
  nothing = λ h x. unfinished_none x (clean t.heap t.done) h (cleaned.1 x);
}
  where
    cleaned :
        IsTracker (clean t.heap t.done)
        × ((x : ℕ) → is_unfinished x (clean t.heap t.done) ≡ is_unfinished x t)
    cleaned = clean-IsTracker t.heap t.done v

    in_heap : (x : ℕ) → is_unfinished x t ≡ true → contains (clean t.heap t.done).heap x ≡ true
    in_heap x u = unfinished_in_heap x (clean t.heap t.done) (cleaned.1 x ∙ u)

-- On a tracker that satisfies its invariant, LowestUnfinished answers an unfinished offset that is at most
-- every unfinished offset, and the tracker that it leaves, whose top it cleaned, satisfies the invariant and has the
-- same unfinished offsets.
lowest_unfinished_least :
    (t : OffsetTracker) (m x : ℕ)
    → IsTracker t
    → (lowest_unfinished t).1 ≡ some m
    → is_unfinished x t ≡ true
    → (is_unfinished m t ≡ true)
      × (m ≤ x)
      × IsTracker (lowest_unfinished t).0
      × ((y : ℕ) → is_unfinished y (lowest_unfinished t).0 ≡ is_unfinished y t)
lowest_unfinished_least t m x v h u =
    let low = lowest_unfinished-AnswersLeast t v in
    ((low.least m h).0, (low.least m h).1 x u, low.kept, low.same)
