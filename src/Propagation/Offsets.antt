-- ===== src/Propagation/Offsets.antt =====
-- services/propagation/offset_tracker.go: the in-flight offsets, a min-heap with lazy deletion.
-- The heap of Go's container/heap is an ascending list: `Push` inserts, index 0 is the least, `Pop`
-- takes it away. Offsets are never negative.
use arcade.Prelude.{
  ℕ, Bool, true, false, not, ◌&&◌, List, [], ◌∷◌, Option, none, some, ◌==◌, nat_eq, if◌then◌else◌,
  leb, keep, contains,
}
pub mod Laws
pub mod Marks

pub record OffsetTracker : Type 0 where
  pub heap : List ℕ
  pub done : List ℕ

unfoldable pub new_offset_tracker : OffsetTracker
new_offset_tracker = record { heap = []; done = [] }

-- heap.Push
unfoldable pub push : ℕ → List ℕ → List ℕ
push x [] = x ∷ []
push x (y ∷ ys) = if leb x y then x ∷ y ∷ ys else y ∷ push x ys

-- Add
unfoldable pub add : ℕ → OffsetTracker → OffsetTracker
unfolding push
add offset t = record t { heap = push offset t.heap }

-- Done: `done` is a set.
unfoldable pub mark_done : ℕ → OffsetTracker → OffsetTracker
mark_done offset t = record t { done = if contains t.done offset then t.done else offset ∷ t.done }

unfoldable pub delete_offset : ℕ → List ℕ → List ℕ
delete_offset x = keep (λ y. not (y == x))

-- cleanTop: pop done offsets off the top.
unfoldable pub clean : List ℕ → List ℕ → OffsetTracker
unfolding delete_offset
clean [] done = record { heap = []; done = done }
clean (top ∷ rest) done =
    let popped = clean rest (delete_offset top done) in
    if contains done top then popped else record { heap = top ∷ rest; done = done }

unfoldable pub clean_top : OffsetTracker → OffsetTracker
unfolding clean
clean_top t = clean t.heap t.done

abbrev pub top_of : List ℕ → Option ℕ
top_of [] = none
top_of (x ∷ xs) = some x

-- LowestUnfinished cleans the top as a side effect.
unfoldable pub lowest_unfinished : OffsetTracker → OffsetTracker × Option ℕ
unfolding clean_top
lowest_unfinished t = let t' = clean_top t in (t', top_of t'.heap)

-- Empty
unfoldable pub is_empty : OffsetTracker → OffsetTracker × Bool
unfolding clean_top
is_empty t = let t' = clean_top t in (t', elim (top_of t'.heap) [ none ↦ true | some _ ↦ false ])
