-- ===== src/Tests/Offsets.antt =====
-- services/propagation: a tracker with an offset done out of order, a queue over it, and a plan.
use arcade.Prelude.{◌≡◌, true, [], ◌∷◌, ◌++◌, arith, All, nat_eq}
use arcade.Propagation.Offsets.{OffsetTracker}
use arcade.Propagation.Offsets.Laws.{IsTracker}
use arcade.Propagation.Offsets.Marks.{
  MarkQueue, IsQueue, push_mark, advance, waiting, mark_queue_fifo,
}
use arcade.Propagation.Chunks.{plan_chunks}
use arcade.Propagation.Chunks.Cover.{Tiles, Fits, plan_chunks-covers}

-- Offsets 3 and 4, of which 3 is done.
abbrev tracked : OffsetTracker
tracked = record { heap = 3 ∷ 4 ∷ []; done = 3 ∷ [] }

tracked-IsTracker : IsTracker tracked
tracked-IsTracker = record {
  ascending = ((omega arith, tt), (tt, tt));
  added = λ x h. ground (arith, h);
}

abbrev queue : MarkQueue
queue = record { msgs = 2 ∷ 3 ∷ 4 ∷ []; head = 1 }

queue-IsQueue : IsQueue queue
unfolding IsQueue
queue-IsQueue = omega arith

mark_queue_fifo_example :
    let (q', t', marked) = advance true queue tracked in
    (marked ++ waiting q' ≡ waiting queue)
    × IsQueue q'
    × (waiting (push_mark 5 queue) ≡ waiting queue ++ 5 ∷ [])
    × IsQueue (push_mark 5 queue)
mark_queue_fifo_example = mark_queue_fifo true queue tracked 5 queue-IsQueue

plan_chunks-covers_example :
    Tiles 0 3 (plan_chunks 2 100 (60 ∷ 60 ∷ 30 ∷ []))
    × All (Fits 2 100 (60 ∷ 60 ∷ 30 ∷ [])) (plan_chunks 2 100 (60 ∷ 60 ∷ 30 ∷ []))
plan_chunks-covers_example = plan_chunks-covers 2 100 (60 ∷ 60 ∷ 30 ∷ [])
