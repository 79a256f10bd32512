-- ===== src/Merkle/Catchup/Queue.antt =====
-- merkleservice/pool.go: the order and the map of a catch-up queue hold the same transactions, once each, and the
-- queue stays within its bound.
use arcade.Prelude.{
  ℕ, zero, suc, ◌+◌, ◌<◌, ◌≡◌, refl, inl, inr, String, Bool, true, false, not, ◌&&◌, ◌||◌, List, [],
  ◌∷◌, ◌++◌, Option, none, some, arith, ◌==◌, string_eq, if◌then◌else◌, leb, length, take, drop,
  contains, contains-append, Bool-cases,
}
use arcade.Prelude.Map.{Map, lookup, insert, delete, member, lookup-insert, lookup-delete}
use arcade.Merkle.Catchup.{Registration, Catchup, drop_oldest, make_room, append_new, add, take_out}

abbrev pub distinct : List String → Bool
distinct [] = true
distinct (x ∷ xs) = not (contains xs x) && distinct xs

abbrev pub is_named : String → Option Registration → Bool
is_named k none = true
is_named k (some reg) = reg.tx_id == k

abbrev pub batch_has : String → List Registration → Bool
batch_has k [] = false
batch_has k (reg ∷ regs) = reg.tx_id == k || batch_has k regs

-- The keys of the map are the transactions of a list, each once, and each entry is its
-- key's.
pub record IsKeyed (order : List String) (m : Map String Registration) : Type 0 where
  pub keys : (k : String) → contains order k ≡ member k m
  pub once : distinct order ≡ true
  pub named : (k : String) → is_named k (lookup k m) ≡ true

member-delete :
    (k j : String) (m : Map String Registration)
    → member j (delete k m) ≡ (if k == j then false else member j m)
member-delete k j m = ground (arith, lookup-delete k j m)

member-insert :
    (k j : String) (reg : Registration) (m : Map String Registration)
    → member j (insert k reg m) ≡ (if k == j then true else member j m)
member-insert k j reg m = ground (arith, lookup-insert k j reg m)

distinct-append :
    (xs : List String) (x : String)
    → distinct xs ≡ true
    → contains xs x ≡ false
    → distinct (xs ++ x ∷ []) ≡ true
distinct-append [] x d c = refl
distinct-append (y ∷ xs) x d c = ground (
  arith,
  distinct-append xs x,
  contains-append xs (x ∷ []) y,
  string_eq.beq_iff x y,
  string_eq.beq_iff y x,
)

tail-IsKeyed :
    (x : String) (xs : List String) (m : Map String Registration)
    → IsKeyed (x ∷ xs) m
    → IsKeyed xs (delete x m)
tail-IsKeyed x xs m v = record {
  keys = λ k. ground (arith, v.keys k, v.once, member-delete x k m, string_eq.beq_iff x k);
  once = ground (arith, v.once);
  named = λ k. ground (arith, v.named k, lookup-delete x k m);
}

pub make_room-IsKeyed :
    (order : List String) (q : Catchup)
    → IsKeyed order q.by_tx_id
    → IsKeyed (make_room order q).order (make_room order q).by_tx_id
unfolding make_room
make_room-IsKeyed [] q v = v
make_room-IsKeyed (x ∷ xs) q v = elim (Bool-cases (leb q.limit (suc (length xs)))) [
  | inl b ↦ rw b (
      make_room-IsKeyed xs
        (record q { by_tx_id = delete x q.by_tx_id; dropped = q.dropped + 1; overflowed = true })
        (tail-IsKeyed x xs q.by_tx_id v))
  | inr b ↦ rw b v
]

pub make_room-overflowed :
    (order : List String) (q : Catchup)
    → q.overflowed ≡ true
    → (make_room order q).overflowed ≡ true
unfolding make_room
make_room-overflowed [] q h = h
make_room-overflowed (x ∷ xs) q h = elim (Bool-cases (leb q.limit (suc (length xs)))) [
  | inl b ↦ rw b (
      make_room-overflowed xs
        (record q { by_tx_id = delete x q.by_tx_id; dropped = q.dropped + 1; overflowed = true })
        refl)
  | inr b ↦ rw b h
]

-- What the loop keeps of the order, and that it drops nothing without the mark.
pub make_room-contains :
    (order : List String) (q : Catchup) (k : String)
    → contains order k ≡ true
    → (contains (make_room order q).order k || (make_room order q).overflowed) ≡ true
unfolding make_room
make_room-contains [] q k h = absurd (ground arith)
make_room-contains (x ∷ xs) q k h = elim (Bool-cases (leb q.limit (suc (length xs)))) [
  | inl b ↦ rw b (ground (arith, make_room-overflowed xs (drop_oldest x q) refl))
  | inr b ↦ rw b (ground (arith, h))
]

pub make_room-length :
    (order : List String) (q : Catchup) → 0 < q.limit → length (make_room order q).order < q.limit
unfolding make_room
make_room-length [] q h = omega (arith, h)
make_room-length (x ∷ xs) q h = elim (Bool-cases (leb q.limit (suc (length xs)))) [
  | inl b ↦ rw b (
      make_room-length xs
        (record q { by_tx_id = delete x q.by_tx_id; dropped = q.dropped + 1; overflowed = true }) h)
  | inr b ↦ rw b (ground (arith, b))
]

pub make_room-limit : (order : List String) (q : Catchup) → (make_room order q).limit ≡ q.limit
unfolding make_room
make_room-limit [] q = refl
make_room-limit (x ∷ xs) q = elim (Bool-cases (leb q.limit (suc (length xs)))) [
  | inl b ↦ rw b (
      make_room-limit xs
        (record q { by_tx_id = delete x q.by_tx_id; dropped = q.dropped + 1; overflowed = true }))
  | inr b ↦ rw b refl
]

pub make_room-inflight :
    (order : List String) (q : Catchup) → (make_room order q).inflight ≡ q.inflight
unfolding make_room
make_room-inflight [] q = refl
make_room-inflight (x ∷ xs) q = elim (Bool-cases (leb q.limit (suc (length xs)))) [
  | inl b ↦ rw b (
      make_room-inflight xs
        (record q { by_tx_id = delete x q.by_tx_id; dropped = q.dropped + 1; overflowed = true }))
  | inr b ↦ rw b refl
]

-- After the loop, a transaction that had no entry has none.
make_room-absent :
    (order : List String) (q : Catchup) (k : String)
    → contains order k ≡ false
    → contains (make_room order q).order k ≡ false
unfolding make_room
make_room-absent [] q k h = refl
make_room-absent (x ∷ xs) q k h = elim (Bool-cases (leb q.limit (suc (length xs)))) [
  | inl b ↦ rw b (
      make_room-absent xs
        (record q { by_tx_id = delete x q.by_tx_id; dropped = q.dropped + 1; overflowed = true }) k
        (ground (arith, h)))
  | inr b ↦ rw b h
]

append_new-IsKeyed :
    (reg : Registration) (q : Catchup)
    → IsKeyed q.order q.by_tx_id
    → contains q.order reg.tx_id ≡ false
    → IsKeyed (append_new reg q).order (append_new reg q).by_tx_id
unfolding append_new
append_new-IsKeyed reg q v c = record {
  keys = λ k. ground (
    arith,
    v.keys k,
    contains-append q.order (reg.tx_id ∷ []) k,
    member-insert reg.tx_id k reg q.by_tx_id,
  );
  once = distinct-append q.order reg.tx_id v.once c;
  named = λ k.
      ground
        (arith, v.named k, lookup-insert reg.tx_id k reg q.by_tx_id, string_eq.beq_iff reg.tx_id k);
}

pub add-IsKeyed :
    (reg : Registration) (q : Catchup)
    → IsKeyed q.order q.by_tx_id
    → IsKeyed (add reg q).order (add reg q).by_tx_id
unfolding add
add-IsKeyed reg q v = elim (Bool-cases (member reg.tx_id q.by_tx_id)) [
  | inl b ↦ rw b (record {
    keys = λ k. ground (
      arith,
      b,
      v.keys k,
      v.keys reg.tx_id,
      member-insert reg.tx_id k reg q.by_tx_id,
      string_eq.beq_iff reg.tx_id k,
    );
    once = v.once;
    named = λ k.
        ground (
          arith,
          v.named k,
          lookup-insert reg.tx_id k reg q.by_tx_id,
          string_eq.beq_iff reg.tx_id k,
        );
  })
  | inr b ↦ rw b (
      append_new-IsKeyed reg (make_room q.order q) (make_room-IsKeyed q.order q v)
        (make_room-absent q.order q reg.tx_id (ground (arith, b, v.keys reg.tx_id))))
]

pub add-contains_self :
    (reg : Registration) (q : Catchup)
    → IsKeyed q.order q.by_tx_id
    → contains (add reg q).order reg.tx_id ≡ true
unfolding add append_new
add-contains_self reg q v = ground (
  arith,
  v.keys reg.tx_id,
  contains-append (make_room q.order q).order (reg.tx_id ∷ []) reg.tx_id,
  string_eq.beq_iff reg.tx_id reg.tx_id,
)

-- An entry is dropped only with the mark.
pub add-contains :
    (reg : Registration) (q : Catchup) (k : String)
    → contains q.order k ≡ true
    → (contains (add reg q).order k || (add reg q).overflowed) ≡ true
unfolding add append_new
add-contains reg q k h = ground (
  arith,
  h,
  make_room-contains q.order q k,
  contains-append (make_room q.order q).order (reg.tx_id ∷ []) k,
)

pub add-overflowed :
    (reg : Registration) (q : Catchup) → q.overflowed ≡ true → (add reg q).overflowed ≡ true
unfolding add append_new
add-overflowed reg q h = ground (arith, h, make_room-overflowed q.order q)

pub take_out-IsKeyed :
    (n : ℕ) (order : List String) (m : Map String Registration)
    → IsKeyed order m
    → IsKeyed (drop n order) (take_out (take n order) m).0
unfolding take_out
take_out-IsKeyed zero order m v = v
take_out-IsKeyed (suc n) [] m v = v
take_out-IsKeyed (suc n) (x ∷ xs) m v = take_out-IsKeyed n xs (delete x m) (tail-IsKeyed x xs m v)

-- What is taken is in the batch.
pub take_out-contains :
    (n : ℕ) (order : List String) (m : Map String Registration) (k : String)
    → IsKeyed order m
    → contains order k ≡ true
    → (batch_has k (take_out (take n order) m).1 || contains (drop n order) k) ≡ true
unfolding take_out
take_out-contains zero order m k v h = h
take_out-contains (suc n) [] m k v h = absurd (ground arith)
take_out-contains (suc n) (x ∷ xs) m k v h = ground (
  arith,
  h,
  v.keys x,
  v.named x,
  string_eq.beq_iff x k,
  take_out-contains n xs (delete x m) k (tail-IsKeyed x xs m v),
)
