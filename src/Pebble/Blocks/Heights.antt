-- ===== src/Pebble/Blocks/Heights.antt =====
-- store/pebble/pebble.go: the height index of the block rows.
use arcade.Prelude.{
  ℕ, ◌≡◌, ◌≢◌, refl, sym, ◌∙◌, ap, ◌⊎◌, inl, inr, String, Bool, true, false, not, ◌&&◌, ◌||◌, List,
  [], ◌∷◌, Option, none, some, arith, ◌==◌, string_eq, nat_eq, if◌then◌else◌, eq_cases, Bool-cases,
}
use arcade.Prelude.Map.{lookup, insert, lookup-insert, lookup-insert_cases}
use arcade.Pebble.Ops.{Io}
use arcade.Pebble.Blocks.{
  StoredBlock, Blocks, Turn, leave, write, entry_beq, set_entry, delete_entry, finish, with_block,
  write_block_proc,
}
use arcade.Pebble.Blocks.Marked.{
  Call, header_seen, processed, unprocessed, bump_built, orphan, reconcile, requeue, reactivate,
  park, call, calls, Advances, Own, orphan-Advances, reconcile-Advances, requeue-Advances,
  reactivate-Advances, park-Advances, stamp-Advances,
}

abbrev pub has_entry : ℕ → String → List (ℕ × String) → Bool
has_entry k h [] = false
has_entry k h (f ∷ es) = entry_beq f (k, h) || has_entry k h es

-- Is the row at the height?
abbrev pub at_height : ℕ → Option StoredBlock → Bool
at_height k none = false
at_height k (some b) = b.block_height == k

-- Each row stands under its own hash, and the index has an entry exactly for the height of a row.
pub record IsIndexed (s : Blocks) : Type 0 where
  pub keyed : (h : String) (b : StoredBlock) → lookup h s.rows ≡ some b → b.block_hash ≡ h
  pub indexed : (k : ℕ) (h : String) → has_entry k h s.heights ≡ at_height k (lookup h s.rows)

has_entry-set :
    (j k : ℕ) (b h : String) (es : List (ℕ × String))
    → has_entry k h (set_entry (j, b) es) ≡ ((j == k && b == h) || has_entry k h es)
unfolding set_entry entry_beq
has_entry-set j k b h [] = refl
has_entry-set j k b h ((i, c) ∷ es) = ground (
  arith,
  has_entry-set j k b h es,
  nat_eq.beq_iff i j,
  nat_eq.beq_iff i k,
  nat_eq.beq_iff j k,
  string_eq.beq_iff c b,
  string_eq.beq_iff c h,
  string_eq.beq_iff b h,
)

has_entry-delete :
    (j k : ℕ) (b h : String) (es : List (ℕ × String))
    → has_entry k h (delete_entry (j, b) es) ≡ (not (j == k && b == h) && has_entry k h es)
unfolding delete_entry entry_beq
has_entry-delete j k b h [] = ground arith
has_entry-delete j k b h ((i, c) ∷ es) = ground (
  arith,
  has_entry-delete j k b h es,
  nat_eq.beq_iff i j,
  nat_eq.beq_iff i k,
  nat_eq.beq_iff j k,
  string_eq.beq_iff c b,
  string_eq.beq_iff c h,
  string_eq.beq_iff b h,
)

write-keyed :
    (cur : StoredBlock) (s : Blocks) (k : String)
    → IsIndexed s
    → (j : String) (b : StoredBlock) → lookup j (insert cur.block_hash cur s.rows) ≡ some b
    → b.block_hash ≡ j
write-keyed cur s k v j b f = elim (lookup-insert_cases cur.block_hash j cur b s.rows f) [
  | inl (x, y) ↦ ap (λ z. z.block_hash) (sym y) ∙ x
  | inr (x, y) ↦ v.keyed j b y
]

write_block_proc-IsIndexed :
    (prev : Option StoredBlock) (cur : StoredBlock) (s : Blocks)
    → lookup cur.block_hash s.rows ≡ prev
    → IsIndexed s
    → IsIndexed (write_block_proc prev cur s)
unfolding write_block_proc
write_block_proc-IsIndexed none cur s e v = record {
  keyed = write-keyed cur s cur.block_hash v;
  indexed = λ k h. ground (
    arith,
    has_entry-set cur.block_height k cur.block_hash h s.heights,
    v.indexed k h,
    lookup-insert cur.block_hash h cur s.rows,
    string_eq.beq_iff cur.block_hash h,
    ap (λ j. lookup j s.rows),
    e,
  );
}
write_block_proc-IsIndexed (some prev) cur s e v = record {
  keyed = write-keyed cur s cur.block_hash v;
  indexed = λ k h.
      rewritten k h (eq_cases cur.block_hash h)
        (Bool-cases (prev.block_height == cur.block_height));
}
  where
    kept : List (ℕ × String)
    kept =
        if prev.block_height == cur.block_height
        then s.heights
        else delete_entry (prev.block_height, prev.block_hash) s.heights

    row :
        (k : ℕ) (h : String)
        → cur.block_hash ≡ h
        → at_height k (lookup h s.rows) ≡ (prev.block_height == k)
    row k h x = ap (at_height k) (ap (λ j. lookup j s.rows) (sym x) ∙ e)

    rewritten :
        (k : ℕ) (h : String)
        → (((cur.block_hash == h) ≡ true) × (cur.block_hash ≡ h))
          ⊎ (((cur.block_hash == h) ≡ false) × (cur.block_hash ≢ h))
        → ((prev.block_height == cur.block_height) ≡ true)
          ⊎ ((prev.block_height == cur.block_height) ≡ false)
        → has_entry k h (set_entry (cur.block_height, cur.block_hash) kept)
          ≡ at_height k (lookup h (insert cur.block_hash cur s.rows))
    rewritten k h (inl (b, x)) (inl q) = rw q (
        ground (
          arith,
          has_entry-set cur.block_height k cur.block_hash h s.heights,
          v.indexed k h,
          row k h x,
          lookup-insert cur.block_hash h cur s.rows,
          b,
          nat_eq.beq_iff prev.block_height cur.block_height,
          nat_eq.beq_iff prev.block_height k,
          nat_eq.beq_iff cur.block_height k,
          q,
        ))
    rewritten k h (inl (b, x)) (inr q) = rw q (
        ground (
          arith,
          has_entry-set cur.block_height k cur.block_hash h
              (delete_entry (prev.block_height, prev.block_hash) s.heights),
          has_entry-delete prev.block_height k prev.block_hash h s.heights,
          v.indexed k h,
          row k h x,
          lookup-insert cur.block_hash h cur s.rows,
          b,
          nat_eq.beq_iff prev.block_height k,
          nat_eq.beq_iff cur.block_height k,
          v.keyed cur.block_hash prev e ∙ x,
          string_eq.beq_iff prev.block_hash h,
        ))
    rewritten k h (inr (b, x)) (inl q) = rw q (
        ground (
          arith,
          has_entry-set cur.block_height k cur.block_hash h s.heights,
          v.indexed k h,
          lookup-insert cur.block_hash h cur s.rows,
          b,
        ))
    rewritten k h (inr (b, x)) (inr q) = rw q (
        ground (
          arith,
          has_entry-set cur.block_height k cur.block_hash h
              (delete_entry (prev.block_height, prev.block_hash) s.heights),
          has_entry-delete prev.block_height k prev.block_hash h s.heights,
          v.indexed k h,
          lookup-insert cur.block_hash h cur s.rows,
          b,
          x,
          sym (v.keyed cur.block_hash prev e),
          string_eq.beq_iff prev.block_hash h,
        ))

finish-IsIndexed {ℓ} :
    {A : Type ℓ} (io : Io) (k : String) (prev : Option StoredBlock) (t : Turn A) (s : Blocks)
    → lookup k s.rows ≡ prev
    → Advances k prev t
    → IsIndexed s
    → IsIndexed (finish io prev t s).0
unfolding finish
finish-IsIndexed io k prev (leave a) s e adv v = v
finish-IsIndexed io k none (write cur a) s e adv v = elim (Bool-cases io.write_fails) [
  | inl w ↦ rw w v
  | inr w ↦ rw w (write_block_proc-IsIndexed none cur s (ap (λ j. lookup j s.rows) adv ∙ e) v)
]
finish-IsIndexed io k (some prev) (write cur a) s e adv v = elim (Bool-cases io.write_fails) [
  | inl w ↦ rw w v
  | inr w ↦
      rw w (write_block_proc-IsIndexed (some prev) cur s (ap (λ j. lookup j s.rows) adv.0 ∙ e) v)
]

with_block-IsIndexed {ℓ} :
    {A : Type ℓ} (io : Io) (k : String) (turn : Option StoredBlock → Turn A) (s : Blocks)
    → ((prev : Option StoredBlock) → Own k prev → Advances k prev (turn prev))
    → IsIndexed s
    → IsIndexed (with_block io k turn s).0
unfolding with_block finish
with_block-IsIndexed io k turn s adv v = elim (Bool-cases io.cancelled) [
  | inl c ↦ rw c v
  | inr c ↦ rw c (elim (Bool-cases io.read_fails) [
    | inl r ↦ rw r v
    | inr r ↦ rw r (
        finish-IsIndexed io k (lookup k s.rows) (turn (lookup k s.rows)) s refl
          (adv (lookup k s.rows) (v.keyed k)) v)
  ])
]

call-IsIndexed :
    (io : Io) (k : String) (c : Call) (s : Blocks) → IsIndexed s → IsIndexed (call io k c s)
unfolding call
call-IsIndexed io k (header_seen height at) s =
    with_block-IsIndexed io k _ s (λ p own. (stamp-Advances k height at p own).0)
call-IsIndexed io k (processed height at) s =
    with_block-IsIndexed io k _ s (λ p own. (stamp-Advances k height at p own).1)
call-IsIndexed io k unprocessed s =
    with_block-IsIndexed io k _ s (λ p own. (stamp-Advances k 0 0 p own).2)
call-IsIndexed io k (bump_built height at) s =
    with_block-IsIndexed io k _ s (λ p own. (stamp-Advances k height at p own).3)
call-IsIndexed io k (orphan gen) s = with_block-IsIndexed io k _ s (orphan-Advances k gen)
call-IsIndexed io k (reconcile token at) s =
    with_block-IsIndexed io k _ s (reconcile-Advances k token at)
call-IsIndexed io k (requeue token) s = with_block-IsIndexed io k _ s (requeue-Advances k token)
call-IsIndexed io k (reactivate height token) s =
    with_block-IsIndexed io k _ s (reactivate-Advances k height token)
call-IsIndexed io k park s = with_block-IsIndexed io k _ s (park-Advances k)

-- Whatever calls on whatever blocks run on a store of block rows, failing ones included: if each row stands
-- under its own hash and the height index has an entry exactly for the height of each row, so it is afterwards.
pub calls-IsIndexed :
    (cs : List (Io × String × Call)) (s : Blocks) → IsIndexed s → IsIndexed (calls cs s)
unfolding calls
calls-IsIndexed [] s v = v
calls-IsIndexed ((io, k, c) ∷ cs) s v =
    calls-IsIndexed cs (call io k c s) (call-IsIndexed io k c s v)
