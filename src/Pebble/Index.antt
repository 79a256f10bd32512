-- ===== src/Pebble/Index.antt =====
-- store/pebble/keys.go and the index half of pebble.go: the secondary index entries of a status row.
-- An entry has no value; the set of entries is a list of keys. The key functions of keys.go print an
-- entry under a prefix of its own, so an entry is the constructor with the printed parts.
use arcade.Prelude.{
  ℕ, String, ◌≡◌, ◌↔◌, refl, inl, inr, Bool, true, false, not, ◌&&◌, ◌||◌, List, [], ◌∷◌, ◌++◌,
  arith, ◌==◌, IsEq, string_eq, nat_eq, if◌then◌else◌, ltb, keep, contains, eq_cases,
}
use arcade.Models.Status.{Status, pending_retry, status_eq}
use arcade.Pebble.Row.{StoredStatus}

pub data IndexKey : Type 0 where
  by_status : Status → String → IndexKey
  by_block : String → String → IndexKey
  by_retry_ready : ℕ → String → IndexKey
  by_updated : ℕ → String → IndexKey

-- The row that an entry points to: the last segment of its key.
unfoldable pub target : IndexKey → String
target (by_status s t) = t
target (by_block h t) = t
target (by_retry_ready n t) = t
target (by_updated n t) = t

abbrev pub index_beq : IndexKey → IndexKey → Bool
index_beq (by_status s t) (by_status s' t') = s == s' && t == t'
index_beq (by_block h t) (by_block h' t') = h == h' && t == t'
index_beq (by_retry_ready n t) (by_retry_ready n' t') = n == n' && t == t'
index_beq (by_updated n t) (by_updated n' t') = n == n' && t == t'
index_beq _ _ = false

pub index_beq_iff : (k l : IndexKey) → (index_beq k l ≡ true) ↔ (k ≡ l)
index_beq_iff (by_status s t) (by_status s' t') =
    ground (arith, status_eq.beq_iff s s', string_eq.beq_iff t t')
index_beq_iff (by_block h t) (by_block h' t') =
    ground (arith, string_eq.beq_iff h h', string_eq.beq_iff t t')
index_beq_iff (by_retry_ready n t) (by_retry_ready n' t') =
    ground (arith, nat_eq.beq_iff n n', string_eq.beq_iff t t')
index_beq_iff (by_updated n t) (by_updated n' t') =
    ground (arith, nat_eq.beq_iff n n', string_eq.beq_iff t t')
index_beq_iff _ _ = ground arith

instance abbrev pub index_eq : IsEq IndexKey
index_eq = record { beq = index_beq; beq_iff = index_beq_iff }

-- The entries that addStatusIndexes sets and removeStatusIndexes deletes for one row.
unfoldable pub status_indexes : StoredStatus → List IndexKey
status_indexes st =
    by_status st.status st.tx_id
      ∷ (if st.block_hash == "" then [] else by_block st.block_hash st.tx_id ∷ [])
    ++ (if st.status == pending_retry && ltb 0 st.next_retry_ns
        then by_retry_ready st.next_retry_ns st.tx_id ∷ []
        else [])
    ++ (if ltb 0 st.timestamp_ns then by_updated st.timestamp_ns st.tx_id ∷ [] else [])

unfoldable pub add_keys : List IndexKey → List IndexKey → List IndexKey
add_keys [] index = index
add_keys (k ∷ ks) index = let rest = add_keys ks index in if contains rest k then rest else k ∷ rest

unfoldable pub remove_keys : List IndexKey → List IndexKey → List IndexKey
remove_keys ks index = keep (λ k. not (contains ks k)) index

unfoldable pub add_status_indexes : StoredStatus → List IndexKey → List IndexKey
unfolding add_keys status_indexes
add_status_indexes st index = add_keys (status_indexes st) index

unfoldable pub remove_status_indexes : StoredStatus → List IndexKey → List IndexKey
unfolding remove_keys status_indexes
remove_status_indexes st index = remove_keys (status_indexes st) index

pub contains-add_keys :
    (ks index : List IndexKey) (k : IndexKey)
    → contains (add_keys ks index) k ≡ (contains ks k || contains index k)
unfolding add_keys
contains-add_keys [] index k = refl
contains-add_keys (j ∷ ks) index k = elim (eq_cases j k) [
  | inl (t, p) ↦ ground (arith, contains-add_keys ks index k, contains-add_keys ks index j)
  | inr (f, n) ↦ ground (arith, contains-add_keys ks index k)
]

pub contains-remove_keys :
    (ks index : List IndexKey) (k : IndexKey)
    → contains (remove_keys ks index) k ≡ (contains index k && not (contains ks k))
unfolding remove_keys
contains-remove_keys ks [] k = refl
contains-remove_keys ks (j ∷ index) k = elim (eq_cases j k) [
  | inl (t, p) ↦ ground (arith, contains-remove_keys ks index k)
  | inr (f, n) ↦ ground (arith, contains-remove_keys ks index k)
]
