-- ===== src/Propagation/Offsets/Marks.antt =====
-- services/propagation/mark_queue.go: the messages that wait for the commit watermark. The queue is
-- its consumed prefix, whose messages are released, and the messages that are pending.
use arcade.Prelude.{
  ℕ, ◌+◌, ◌-◌, ◌/◌, ◌≤◌, ◌<◌, ◌≡◌, refl, Bool, true, false, ◌&&◌, List, [], ◌∷◌, ◌++◌, Option, none,
  some, arith, if◌then◌else◌, leb, ltb, length, drop, All, nat_eq, zero, suc, All-mono,
  leb-false→lt, ap, ◌∙◌, sym, length-append, length-drop,
}
use native.Mathlib.Nat.{zero-add, add-zero, suc-add}
use arcade.Propagation.Offsets.{OffsetTracker, lowest_unfinished}
use arcade.Propagation.Offsets.Laws.{is_unfinished, IsTracker, lowest_unfinished-AnswersLeast}

-- `msgs` holds the offsets of the messages; those before `head` are marked.
pub record MarkQueue : Type 0 where
  pub msgs : List ℕ
  pub head : ℕ

unfoldable pub push_mark : ℕ → MarkQueue → MarkQueue
push_mark offset q = record q { msgs = q.msgs ++ offset ∷ [] }

unfoldable pub pending : MarkQueue → ℕ
pending q = length q.msgs - q.head

-- `hasUnfinished && msg.Offset >= lowest`
abbrev pub blocked : Option ℕ → ℕ → Bool
blocked none offset = false
blocked (some lowest) offset = leb lowest offset

-- The loop over the pending messages: those that are marked, in order.
unfoldable pub markable : Option ℕ → List ℕ → List ℕ
markable lowest [] = []
markable lowest (m ∷ ms) =
    let rest = m ∷ markable lowest ms in if blocked lowest m then [] else rest

-- Compaction, once the consumed prefix is half of the queue.
unfoldable pub compact : MarkQueue → MarkQueue
compact q =
    if ltb 0 q.head && leb (length q.msgs / 2) q.head
    then record { msgs = drop q.head q.msgs; head = 0 }
    else q

-- advance: the queue, the tracker after its clean-up, and the offsets marked. Without a claim it does
-- nothing.
unfoldable pub advance : Bool → MarkQueue → OffsetTracker → MarkQueue × OffsetTracker × List ℕ
advance false q t = (q, t, [])
advance true q t =
    let (t', lowest) = lowest_unfinished t in
    let marked = markable lowest (drop q.head q.msgs) in
    (compact (record q { head = q.head + length marked }), t', marked)

-- The messages that wait.
unfoldable pub waiting : MarkQueue → List ℕ
waiting q = drop q.head q.msgs

markable-prefix :
    (lowest : Option ℕ) (ms : List ℕ)
    → markable lowest ms ++ drop (length (markable lowest ms)) ms ≡ ms
unfolding markable
markable-prefix lowest [] = refl
markable-prefix lowest (m ∷ ms) = ground (arith, markable-prefix lowest ms)

markable-free :
    (lowest : Option ℕ) (ms : List ℕ) → All (λ m. blocked lowest m ≡ false) (markable lowest ms)
unfolding markable
markable-free lowest [] = tt
markable-free lowest (m ∷ ms) = ground (arith, markable-free lowest ms)

drop-drop {ℓ} : {A : Type ℓ} (n m : ℕ) (xs : List A) → drop m (drop n xs) ≡ drop (n + m) xs
drop-drop zero m xs = rw zero-add
drop-drop (suc n) zero [] = rw add-zero
drop-drop (suc n) (suc m) [] = rw suc-add
drop-drop (suc n) m (x ∷ xs) = rw suc-add (drop-drop n m xs)

waiting-compact : (q : MarkQueue) → waiting (compact q) ≡ waiting q
unfolding waiting compact
waiting-compact q = ground arith

drop-append {ℓ} :
    {A : Type ℓ} (n : ℕ) (xs ys : List A) → n ≤ length xs → drop n (xs ++ ys) ≡ drop n xs ++ ys
drop-append zero xs ys h = refl
drop-append (suc n) [] ys h = absurd (omega arith)
drop-append (suc n) (x ∷ xs) ys h = drop-append n xs ys (omega arith)

-- The consumed prefix is part of the queue.
unfoldable pub IsQueue : MarkQueue → Type 0
IsQueue q = q.head ≤ length q.msgs

length-markable : (lowest : Option ℕ) (ms : List ℕ) → length (markable lowest ms) ≤ length ms
unfolding markable
length-markable lowest [] = omega arith
length-markable lowest (m ∷ ms) = ground (arith, length-markable lowest ms)

compact-IsQueue : (q : MarkQueue) → IsQueue q → IsQueue (compact q)
unfolding IsQueue compact
compact-IsQueue q h = ground arith

push_mark-fifo :
    (q : MarkQueue) (offset : ℕ)
    → IsQueue q
    → (waiting (push_mark offset q) ≡ waiting q ++ offset ∷ []) × IsQueue (push_mark offset q)
unfolding IsQueue waiting push_mark
push_mark-fifo q offset h = (
  drop-append q.head q.msgs (offset ∷ []) h,
  omega (arith, h, length-append q.msgs (offset ∷ [])),
)

advance-fifo :
    (claim : Bool) (q : MarkQueue) (t : OffsetTracker)
    → IsQueue q
    → ((advance claim q t).2 ++ waiting (advance claim q t).0 ≡ waiting q)
      × IsQueue (advance claim q t).0
unfolding advance waiting
advance-fifo false q t h = (refl, h)
advance-fifo true q t h =
    let marked = markable (lowest_unfinished t).1 (drop q.head q.msgs) in
    (
      ap (◌++◌ marked) (waiting-compact _ ∙ sym (drop-drop q.head (length marked) q.msgs))
          ∙ markable-prefix (lowest_unfinished t).1 (drop q.head q.msgs),
      compact-IsQueue _ (moved h),
    )
  where
    moved :
        IsQueue q
        → IsQueue (record q {
          head = q.head + length (markable (lowest_unfinished t).1 (drop q.head q.msgs));
        })
    moved h =
        unfold IsQueue in
        omega (
          arith,
          h,
          length-markable (lowest_unfinished t).1 (drop q.head q.msgs),
          length-drop q.head q.msgs,
        )

-- The queue is first in, first out: a push adds to the end of what waits, and an advance, with a
-- claim or without, takes the offsets that it marks off the front, and nothing else. Both keep the
-- consumed prefix within the queue.
pub mark_queue_fifo :
    (claim : Bool) (q : MarkQueue) (t : OffsetTracker) (offset : ℕ)
    → IsQueue q
    → let (q', t', marked) = advance claim q t in
      (marked ++ waiting q' ≡ waiting q)
      × IsQueue q'
      × (waiting (push_mark offset q) ≡ waiting q ++ offset ∷ [])
      × IsQueue (push_mark offset q)
mark_queue_fifo claim q t offset h =
    let a = advance-fifo claim q t h in let p = push_mark-fifo q offset h in (a.0, a.1, p.0, p.1)

-- On a tracker that satisfies its invariant, every offset that an advance marks is below every offset
-- that is unfinished, and the tracker keeps its invariant and its unfinished offsets.
pub advance-below_unfinished :
    (claim : Bool) (q : MarkQueue) (t : OffsetTracker)
    → IsTracker t
    → let (q', t', marked) = advance claim q t in
      All (λ m. (x : ℕ) → is_unfinished x t ≡ true → m < x) marked
      × IsTracker t'
      × ((x : ℕ) → is_unfinished x t' ≡ is_unfinished x t)
unfolding advance
advance-below_unfinished false q t v = (tt, v, λ x. refl)
advance-below_unfinished true q t v =
    let low = lowest_unfinished-AnswersLeast t v in
    (
      All-mono _ _ (markable (lowest_unfinished t).1 (drop q.head q.msgs))
          (λ m free x u. below m x free u (lowest_unfinished t).1 refl)
          (markable-free (lowest_unfinished t).1 (drop q.head q.msgs)),
      low.kept,
      low.same,
    )
  where
    below :
        (m x : ℕ)
        → blocked (lowest_unfinished t).1 m ≡ false
        → is_unfinished x t ≡ true
        → (o : Option ℕ) → (lowest_unfinished t).1 ≡ o
        → m < x
    below m x free u none e = absurd (cc (u, (lowest_unfinished-AnswersLeast t v).nothing e x))
    below m x free u (some l) e =
        let le = ((lowest_unfinished-AnswersLeast t v).least l e).1 x u in
        omega (arith, leb-false→lt l m (rw e at free), le)
