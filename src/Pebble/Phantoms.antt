-- ===== src/Pebble/Phantoms.antt =====
-- store/pebble/pebble.go: no row appears that was never submitted.
use arcade.Prelude.{String, ◌≡◌, ◌∙◌, inl, inr, List, [], ◌∷◌, none, some, string_eq, eq_cases, All}
use arcade.Prelude.Map.{lookup, insert, lookup-insert_ne}
use arcade.Models.Status.{status_eq}
use arcade.Pebble.Row.{StoredStatus}
use arcade.Pebble.Ops.{Store, write_row}
use arcade.Pebble.Walk.{
  Op, get_or_insert, update_status, bump_retry, set_pending_retry, clear_retry, set_mined,
  set_status, mark_registered, run, run_all, Admits, run-keeps,
}
use arcade.Pebble.Guard.{lookup_at}

-- The operations that are for existing rows only.
abbrev pub IsUpdate : Op → Type 0
IsUpdate (get_or_insert io now status) = ⊥
IsUpdate _ = Unit {0}

module _ (t : String) where
  abbrev IsAbsent : Store → Type 0
  IsAbsent s = lookup t s.rows ≡ none

  abbrev Any : String → StoredStatus → StoredStatus → Type 0
  Any k e u = Unit {0}

  insert-IsAbsent :
      (s : Store) (k : String) (e u : StoredStatus)
      → IsAbsent s
      → lookup k s.rows ≡ some e
      → lookup t (insert k u s.rows) ≡ none
  insert-IsAbsent s k e u a h = elim (eq_cases k t) [
    | inl (b, x) ↦ absurd (cc (a, lookup_at s k t (some e) x h))
    | inr (b, x) ↦ lookup-insert_ne k t u s.rows x ∙ a
  ]

  write_row-IsAbsent :
      (s : Store) (k : String) (e u : StoredStatus)
      → IsAbsent s
      → lookup k s.rows ≡ some e
      → IsAbsent (write_row k e u s)
  unfolding write_row
  write_row-IsAbsent = insert-IsAbsent

  IsAbsent-Admits : (o : Op) → IsUpdate o → Admits IsAbsent Any Any o
  IsAbsent-Admits (get_or_insert io now status) g = absurd g
  IsAbsent-Admits (update_status io update) g = λ e b. tt
  IsAbsent-Admits (bump_retry io k) g = λ e. tt
  IsAbsent-Admits (set_pending_retry io now k raw next reason) g = λ e b. tt
  IsAbsent-Admits (clear_retry io now k final extra) g = λ e. tt
  IsAbsent-Admits (set_mined io now hash height ks) g = λ k e b. tt
  IsAbsent-Admits (set_status scan io now hash new) g = λ k e b. tt
  IsAbsent-Admits (mark_registered io stamp ks) g = λ k e. tt

  -- No operation but GetOrInsertStatus creates a row: an id that is not in the store is not in it
  -- after any history without GetOrInsertStatus.
  no_phantom_row :
      (ops : List Op) (s : Store)
      → All IsUpdate ops
      → lookup t s.rows ≡ none
      → lookup t (run_all ops s).rows ≡ none
  unfolding run_all
  no_phantom_row [] s g h = h
  no_phantom_row (o ∷ ops) s g h = no_phantom_row ops (run o s) g.1 (
      run-keeps IsAbsent Any Any (λ s' k e u a f r. write_row-IsAbsent s' k e u a f)
        (λ s' k e u a f r. insert-IsAbsent s' k e u a f) o s (IsAbsent-Admits o g.0) h)
