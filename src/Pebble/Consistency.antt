-- ===== src/Pebble/Consistency.antt =====
-- The secondary index of the pebble store agrees with its rows, whatever is done and whatever fails.
use arcade.Prelude.{
  ℕ, String, ◌≡◌, ◌≢◌, refl, sym, ap, ◌∙◌, inl, inr, Bool, true, false, not, ◌&&◌, ◌||◌, List, [],
  ◌∷◌, Option, none, some, arith, string_eq, contains, Bool-cases, eq_cases,
}
use arcade.Prelude.Map.{lookup, insert, lookup-insert_self, lookup-insert_ne, lookup-insert_cases}
use arcade.Models.Status.{Status, status_eq}
use arcade.Pebble.Row.{StoredStatus, append_orphaned_anchor, from_model, merge_status}
use arcade.Pebble.Index.{
  IndexKey, target, index_eq, status_indexes, remove_keys, add_status_indexes,
  remove_status_indexes, contains-add_keys, contains-remove_keys,
}
use arcade.Pebble.Ops.{
  Store, write_row, write_status_new, new_status, pending_row, cleared_row, mined_row, reverted_row,
}
use arcade.Pebble.Walk.{
  Op, get_or_insert, update_status, bump_retry, set_pending_retry, clear_retry, set_mined,
  set_status, mark_registered, run, run_all, Admits, run-keeps,
}

unfoldable pub asked : Option StoredStatus → IndexKey → Bool
asked none k = false
asked (some r) k = contains (status_indexes r) k

-- Does the row that an entry points to ask for it?
unfoldable pub owned : Store → IndexKey → Bool
owned s k = asked (lookup (target k) s.rows) k

-- Each row stands under its own id, and an entry is in the index exactly when its row asks for it.
pub record IsConsistent (s : Store) : Type 0 where
  pub keyed : (t : String) (r : StoredStatus) → lookup t s.rows ≡ some r → r.tx_id ≡ t
  pub indexed : (k : IndexKey) → contains s.index k ≡ owned s k

target_of_status_indexes :
    (st : StoredStatus) (k : IndexKey) → contains (status_indexes st) k ≡ true → st.tx_id ≡ target k
unfolding status_indexes target
target_of_status_indexes st k h = ground (arith, string_eq.beq_iff st.tx_id (target k))

status_indexes_foreign :
    (st : StoredStatus) (k : IndexKey) (t : String)
    → st.tx_id ≡ t
    → t ≢ target k
    → contains (status_indexes st) k ≡ false
status_indexes_foreign st k t p n = elim (Bool-cases (contains (status_indexes st) k)) [
  | inl e ↦ absurd (n (sym p ∙ target_of_status_indexes st k e))
  | inr e ↦ e
]

or_false : (a : Bool) → (a || false) ≡ a
or_false a = ground arith

or_and_not : (a b : Bool) → (a || (b && not b)) ≡ a
or_and_not a b = ground arith

-- An entry after a rewrite of `e` to `u`.
contains-rewrite :
    (u e : StoredStatus) (index : List IndexKey) (k : IndexKey)
    → contains (add_status_indexes u (remove_status_indexes e index)) k
      ≡ (contains (status_indexes u) k || (contains index k && not (contains (status_indexes e) k)))
unfolding add_status_indexes remove_status_indexes
contains-rewrite u e index k = rw (
  contains-add_keys (status_indexes u) (remove_keys (status_indexes e) index) k,
  contains-remove_keys (status_indexes e) index k,
)

asked-lookup :
    (s : Store) (t : String) (o : Option StoredStatus) (k : IndexKey)
    → t ≡ target k
    → lookup t s.rows ≡ o
    → asked (lookup (target k) s.rows) k ≡ asked o k
asked-lookup s t o k x h = rw (← x, h)

asked-insert_self :
    (s : Store) (t : String) (u : StoredStatus) (k : IndexKey)
    → t ≡ target k
    → asked (lookup (target k) (insert t u s.rows)) k ≡ contains (status_indexes u) k
unfolding asked
asked-insert_self s t u k x = rw (← x, lookup-insert_self t u s.rows)

module _ (s : Store) (v : IsConsistent s) (t : String) where
  indexed_self :
      (e : StoredStatus) (k : IndexKey)
      → lookup t s.rows ≡ some e
      → t ≡ target k
      → contains s.index k ≡ contains (status_indexes e) k
  unfolding owned asked
  indexed_self e k h x = v.indexed k ∙ asked-lookup s t (some e) k x h

  keyed_insert :
      (u : StoredStatus)
      → u.tx_id ≡ t
      → (j : String) (r : StoredStatus) → lookup j (insert t u s.rows) ≡ some r
      → r.tx_id ≡ j
  keyed_insert u p j r q = elim (lookup-insert_cases t j u r s.rows q) [
    | inl (x, w) ↦ sym (ap (λ z. z.tx_id) w) ∙ p ∙ x
    | inr (x, w) ↦ v.keyed j r w
  ]

  write_row-IsConsistent :
      (e u : StoredStatus)
      → lookup t s.rows ≡ some e
      → u.tx_id ≡ t
      → IsConsistent (write_row t e u s)
  unfolding write_row owned
  write_row-IsConsistent e u h p = record {
    keyed = keyed_insert u p;
    indexed = λ k. contains-rewrite u e s.index k ∙ elim (eq_cases t (target k)) [
      | inl (b, x) ↦ rw (indexed_self e k h x) (
          or_and_not (contains (status_indexes u) k) (contains (status_indexes e) k)
          ∙ sym (asked-insert_self s t u k x))
      | inr (b, x) ↦
          rw
            (
              status_indexes_foreign u k t p x,
              status_indexes_foreign e k t (v.keyed t e h) x,
              lookup-insert_ne t (target k) u s.rows x,
            )
            (ground (arith, v.indexed k))
    ];
  }

  -- A row that is rewritten in place, with the fields of its entries unchanged.
  insert-IsConsistent :
      (e u : StoredStatus)
      → lookup t s.rows ≡ some e
      → u.tx_id ≡ t
      → status_indexes u ≡ status_indexes e
      → IsConsistent (record s { rows = insert t u s.rows })
  unfolding owned
  insert-IsConsistent e u h p same = record {
    keyed = keyed_insert u p;
    indexed = λ k. elim (eq_cases t (target k)) [
      | inl (b, x) ↦
          indexed_self e k h x
          ∙ ap (λ l. contains l k) (sym same)
          ∙ sym (asked-insert_self s t u k x)
      | inr (b, x) ↦ rw (lookup-insert_ne t (target k) u s.rows x) (v.indexed k)
    ];
  }

write_status_new-IsConsistent :
    (s : Store) (v : IsConsistent s) (u : StoredStatus)
    → lookup u.tx_id s.rows ≡ none
    → IsConsistent (write_status_new u s)
unfolding write_status_new add_status_indexes owned asked
write_status_new-IsConsistent s v u h = record {
  keyed = keyed_insert s v u.tx_id u refl;
  indexed = λ k.
      contains-add_keys (status_indexes u) s.index k ∙ elim (eq_cases u.tx_id (target k)) [
        | inl (b, x) ↦
            rw (v.indexed k ∙ asked-lookup s u.tx_id none k x h)
              (or_false (contains (status_indexes u) k) ∙ sym (asked-insert_self s u.tx_id u k x))
        | inr (b, x) ↦
            rw
              (
                status_indexes_foreign u k u.tx_id refl x,
                lookup-insert_ne u.tx_id (target k) u s.rows x,
              )
              (v.indexed k)
      ];
}

mined_row-tx_id :
    (now : ℕ) (hash : String) (height : ℕ) (e : StoredStatus)
    → (mined_row now hash height e).tx_id ≡ e.tx_id
unfolding mined_row append_orphaned_anchor
mined_row-tx_id now hash height e = ground arith

reverted_row-tx_id :
    (now : ℕ) (new : Status) (e : StoredStatus) → (reverted_row now new e).tx_id ≡ e.tx_id
unfolding reverted_row append_orphaned_anchor
reverted_row-tx_id now new e = ground arith

-- A rewrite keeps the row under its key.
abbrev Rekeys : String → StoredStatus → StoredStatus → Type 0
Rekeys t e u = e.tx_id ≡ t → u.tx_id ≡ t

-- A rewrite in place asks for the same entries.
abbrev Reindexes : String → StoredStatus → StoredStatus → Type 0
Reindexes t e u = (u.tx_id ≡ e.tx_id) × (status_indexes u ≡ status_indexes e)

Op-Admits : (o : Op) → Admits IsConsistent Rekeys Reindexes o
unfolding merge_status pending_row cleared_row status_indexes
Op-Admits (get_or_insert io now status) = λ s v h.
    write_status_new-IsConsistent s v (from_model (new_status now status))
      (unfold from_model new_status in h)
Op-Admits (update_status io update) = λ e b k. refl
Op-Admits (bump_retry io t) = λ e. (refl, refl)
Op-Admits (set_pending_retry io now t raw next reason) = λ e b k. k
Op-Admits (clear_retry io now t final extra) = λ e k. k
Op-Admits (set_mined io now hash height ts) = λ t e b k. mined_row-tx_id now hash height e ∙ k
Op-Admits (set_status scan io now hash new) = λ t e b k. reverted_row-tx_id now new e ∙ k
Op-Admits (mark_registered io stamp ts) = λ t e. (refl, refl)

-- Whatever operations run on a consistent store, in whatever order, and whatever cancellations, read
-- failures and write failures they meet, each row stands under its own id, and the status, block,
-- retry and update indexes hold exactly the entries that the rows ask for.
pub run_all-IsConsistent :
    (ops : List Op) (s : Store) → IsConsistent s → IsConsistent (run_all ops s)
unfolding run_all
run_all-IsConsistent [] s v = v
run_all-IsConsistent (o ∷ ops) s v = run_all-IsConsistent ops (run o s) (
    run-keeps IsConsistent Rekeys Reindexes
      (λ s' t e u v' h r. write_row-IsConsistent s' v' t e u h (r (v'.keyed t e h)))
      (λ s' t e u v' h r. insert-IsConsistent s' v' t e u h (r.0 ∙ v'.keyed t e h) r.1) o s
      (Op-Admits o) v)
