-- ===== src/Caches/Bumps.antt =====
-- store/bumpcache/bumpcache.go: the cache of the compound proofs of blocks. A fill of a block takes the
-- block's generation as a token when it begins, and may install only while the token is current.
-- The parsed compound and its leaves are the bump package's; `Fetched` is what a caller's fetch
-- returns. The singleflight group runs the fill that leads; two fills overlap in Fills.
use arcade.Prelude.{
  ℕ, ◌+◌, ◌-◌, ◌%◌, ◌^◌, String, Bool, true, false, not, ◌||◌, Option, none, some, ◌==◌, string_eq,
  nat_eq, if◌then◌else◌, ltb,
}
use arcade.Prelude.Map.{Map, lookup, insert, delete}
use arcade.Caches.Lru.{Lru}
use arcade.Caches.Budget.{Charged, drop_key, read, install}
use arcade.Models.Status.{Status, status_eq, mined, immutable}

pub record Cache (L R : Type 0) : Type 0 where
  pub kept : Charged L
  pub gen : Map String ℕ
  pub inflight : Map String ℕ
  pub refreshed : R

-- A missing key of a Go map of numbers reads as 0.
abbrev pub or_zero : Option ℕ → ℕ
or_zero none = 0
or_zero (some n) = n

unfoldable pub count_of : String → Map String ℕ → ℕ
count_of k m = or_zero (lookup k m)

pub data Fetched (Data : Type 0) : Type 0 where
  failed : Fetched Data
  fetched : Data → Fetched Data

abbrev pub cost : {V : Type 0} → (V → ℕ) → String → V → ℕ
cost leaves hash v = leaves v

unfoldable pub begin_fill : {L R : Type 0} → String → Cache L R → Cache L R × ℕ
begin_fill hash c = (
  record c { inflight = insert hash (count_of hash c.inflight + 1) c.inflight },
  count_of hash c.gen,
)

-- The last fill of a block prunes both maps.
unfoldable pub deregister : {L R : Type 0} → String → Cache L R → Cache L R
deregister hash c =
    let left = count_of hash c.inflight - 1 in
    if left == 0
    then record c { inflight = delete hash c.inflight; gen = delete hash c.gen }
    else record c { inflight = insert hash left c.inflight }

-- What a fill has to install: nil where the fetch fails, is empty or does not parse.
unfoldable pub built :
    {V Data : Type 0} → (Data → Bool) → (Data → Option V) → Fetched Data → Option V
built is_empty parse failed = none
built is_empty parse (fetched bytes) = if is_empty bytes then none else parse bytes

module _ {V L R : Type 0} (api : Lru String V L) (leaves : V → ℕ) (max_leaves : ℕ) where
  unfoldable pub lookup_index : String → Cache L R → Cache L R × Option V
  lookup_index hash c =
      let (kept, v) = read api (cost leaves) hash c.kept in (record c { kept = kept }, v)

  -- While a fill is registered, the generation moves on: a uint64.
  unfoldable pub remove : String → Cache L R → Cache L R
  remove hash c = record c {
    kept = drop_key api (cost leaves) hash c.kept;
    gen =
        if ltb 0 (count_of hash c.inflight)
        then insert hash ((count_of hash c.gen + 1) % 2 ^ 64) c.gen
        else c.gen;
  }

  unfoldable pub install_index : String → V → Cache L R → Cache L R
  install_index hash v c = record c { kept = install api (cost leaves) max_leaves hash v c.kept }

  unfoldable pub end_fill : String → Option V → ℕ → Cache L R → Cache L R
  end_fill hash none token c = deregister hash c
  end_fill hash (some v) token c =
      if count_of hash c.gen == token
      then install_index hash v (deregister hash c)
      else deregister hash c

  module _ {Data : Type 0} (is_empty : Data → Bool) (parse : Data → Option V) where
    -- A fill: registered before the fetch, deregistered after it.
    unfoldable pub fill : String → Fetched Data → Cache L R → Cache L R × Option V
    fill hash f c =
        let (c', token) = begin_fill hash c in
        (end_fill hash (built is_empty parse f) token c', built is_empty parse f)

    -- `index`: a lookup, and on a miss the flight, which looks once more and fills.
    unfoldable pub index : String → Fetched Data → Cache L R → Cache L R × Option V
    index hash f c =
        let (c', v) = lookup_index hash c in
        elim v [
          | some idx ↦ (c', some idx)
          | none ↦
              let (c'', v') = lookup_index hash c' in
              elim v' [ some idx ↦ (c'', some idx) | none ↦ fill hash f c'' ]
        ]

    module _ {Proof : Type 0} (minimal_path_bytes : V → String → Option Proof)
        (times : Lru String ℕ R) (refresh_interval : ℕ) where
      -- A block is fetched again for a missing leaf at most once per interval.
      unfoldable pub claim_refresh : ℕ → String → Cache L R → Cache L R × Bool
      claim_refresh now hash c =
          let (r, last) = times.get hash c.refreshed in
          elim last [
            | none ↦ (record c { refreshed = (times.add hash now r).0 }, true)
            | some t ↦
                if ltb now (t + refresh_interval)
                then (record c { refreshed = r }, false)
                else (record c { refreshed = (times.add hash now r).0 }, true)
          ]

      abbrev pub path_in : String → Option V → Option Proof
      path_in txid none = none
      path_in txid (some idx) = minimal_path_bytes idx txid

      -- A cached index that lacks the leaf is dropped and fetched once more.
      unfoldable pub refetch :
          ℕ → String → String → Fetched Data → Cache L R → Cache L R × Option Proof
      refetch now hash txid f c =
          let (c', claimed) = claim_refresh now hash c in
          let (c'', idx) = index hash f (remove hash c') in
          if claimed then (c'', path_in txid idx) else (c', none)

      unfoldable pub path_for :
          ℕ → String → String → Fetched Data → Fetched Data → Cache L R → Cache L R × Option Proof
      path_for now hash txid first again c =
          let (c', v) = lookup_index hash c in
          elim v [
            | none ↦ let (c'', idx) = index hash first c' in (c'', path_in txid idx)
            | some idx ↦ elim (minimal_path_bytes idx txid) [
              | some path ↦ (c', some path)
              | none ↦ refetch now hash txid again c'
            ]
          ]

      unfoldable pub minimal_path :
          ℕ → String → String → Fetched Data → Fetched Data → Cache L R → Cache L R × Option Proof
      minimal_path now hash txid first again c =
          if hash == "" || txid == "" then (c, none) else path_for now hash txid first again c

      -- The path that a status row gets: the one that it has, or that of a mined row's block.
      unfoldable pub enrich :
          ℕ
          → Status
          → String
          → String
          → Option Proof
          → Fetched Data
          → Fetched Data
          → Cache L R
          → Cache L R × Option Proof
      enrich now status hash txid (some path) first again c = (c, some path)
      enrich now status hash txid none first again c =
          if hash == "" || not (status == mined || status == immutable)
          then (c, none)
          else path_for now hash txid first again c
