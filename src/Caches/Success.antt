-- ===== src/Caches/Success.antt =====
-- ssrfguard/cache.go: `SuccessCache`, the validated URLs of the p2p announcements, bounded and with a
-- time to live. The clock is read anew at each step that reads it.
use arcade.Prelude.{
  ℕ, ◌+◌, ◌≤◌, ◌≡◌, ◌⊎◌, refl, sym, ap, ◌∙◌, inl, inr, String, false, not, ◌&&◌, List, [], ◌∷◌,
  Option, none, some, arith, ◌==◌, string_eq, if◌then◌else◌, ltb, leb, length, Bool-cases,
  Option-cases, eq_cases, ltb-false→le,
}
use arcade.Prelude.Map.{
  Map, lookup, insert, delete, member, lookup-insert, lookup-delete, length-insert-le,
  length-delete-le, length-insert-present,
}
pub mod Latest

pub record Entry : Type 0 where
  pub value : String
  pub expiry : ℕ

abbrev pub Entries : Type 0
Entries = Map String Entry

-- What is found under the key: an expired entry is deleted.
unfoldable pub get_found : ℕ → String → Entries → Option Entry → Entries × Option String
get_found now key entries none = (entries, none)
get_found now key entries (some e) =
    if ltb e.expiry now then (delete key entries, none) else (entries, some (e.value))

unfoldable pub get : ℕ → String → Entries → Entries × Option String
get now key entries = get_found now key entries (lookup key entries)

-- The sweep: the expired ones of the entries that the loop visits are deleted.
unfoldable pub sweep : ℕ → List (String × Entry) → Entries → Entries
sweep now [] entries = entries
sweep now ((k, e) ∷ visited) entries =
    let rest = sweep now visited (if ltb e.expiry now then delete k entries else entries) in rest

-- After a sweep, an entry that still has no room is dropped.
unfoldable pub put_swept : ℕ → String → Entry → Entries → Entries
put_swept limit key e swept = if leb limit (length swept) then swept else insert key e swept

-- `now` is read for the sweep and `at` for the entry.
unfoldable pub put : ℕ → ℕ → ℕ → ℕ → String → String → Entries → Entries
put ttl limit now at key value entries =
    let e : Entry = record { value = value; expiry = at + ttl } in
    if not (member key entries) && leb limit (length entries)
    then put_swept limit key e (sweep now entries entries)
    else insert key e entries

-- A history of calls, the newest first.
pub data Call : Type 0 where
  got : ℕ → String → Call
  stored : ℕ → ℕ → String → String → Call

unfoldable pub run : ℕ → ℕ → List Call → Entries
run ttl limit [] = []
run ttl limit (got now key ∷ older) = (get now key (run ttl limit older)).0
run ttl limit (stored now at key value ∷ older) =
    put ttl limit now at key value (run ttl limit older)

-- The value that was last put under a key, and when it expires.
unfoldable pub latest : ℕ → List Call → String → Option Entry
latest ttl [] key = none
latest ttl (got now k ∷ older) key = latest ttl older key
latest ttl (stored now at k value ∷ older) key =
    let rest = latest ttl older key in
    if k == key then some (record { value = value; expiry = at + ttl }) else rest
