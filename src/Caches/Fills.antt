-- ===== src/Caches/Fills.antt =====
-- store/bumpcache/bumpcache.go: fills, rebuilds and invalidations that overlap. The store's compound of
-- a block has a version, which a rebuild raises before it calls `Remove`; a fill reads the store at
-- some moment between its beginning and its end.
use arcade.Prelude.{
  ℕ, zero, suc, ◌+◌, ◌-◌, ◌%◌, ◌^◌, ◌≤◌, ◌<◌, ◌≡◌, ◌≢◌, ◌⊎◌, refl, sym, ap, subst, ◌∙◌, inl, inr,
  String, Bool, true, false, not, ◌&&◌, List, [], ◌∷◌, Option, none, some, arith, ◌==◌, IsEq,
  string_eq, nat_eq, if◌then◌else◌, ltb, length, get_elem?, All, All-mono, Bool-cases, Option-cases,
  eq_cases,
}
use arcade.Prelude.Map.{Map, lookup, insert, delete, lookup-insert, lookup-delete}
use arcade.Caches.Lru.{Lru}
use arcade.Caches.Budget.{
  Charged, IsExact, drop_key, read, install, Part, drop_key-lookup, install-Part, read-lookup,
}
use arcade.Caches.Bumps.{
  Cache, count_of, cost, lookup_index, remove, begin_fill, deregister, install_index, end_fill,
}
pub mod Counts
pub mod Current
pub mod Ending
pub mod Fresh
pub mod Budgets

pub record Fill (V : Type 0) : Type 0 where
  pub block : String
  pub token : ℕ
  pub result : Option V

pub record World (V L R : Type 0) : Type 0 where
  pub cache : Cache L R
  pub fills : List (Fill V)
  -- The version of each block's compound in the store, and when `Remove` was last called for it.
  pub version_of : String → ℕ
  pub removed_at : String → ℕ

-- What happens, at the moments that the cache's mutex orders.
pub data Event (V : Type 0) : Type 0 where
  rebuilt : String → Event V
  invalidated : String → Event V
  began : String → Event V
  -- The n-th fill reads the store.
  loaded : ℕ → V → Event V
  ended : ℕ → Event V
  looked : String → Event V

abbrev pub set_at : {A : Type 0} → ℕ → A → List A → List A
set_at n a [] = []
set_at zero a (x ∷ xs) = a ∷ xs
set_at (suc n) a (x ∷ xs) = x ∷ set_at n a xs

abbrev pub remove_at : {A : Type 0} → ℕ → List A → List A
remove_at n [] = []
remove_at zero (x ∷ xs) = xs
remove_at (suc n) (x ∷ xs) = x ∷ remove_at n xs

abbrev pub update : (String → ℕ) → String → ℕ → String → ℕ
update f k n j = if k == j then n else f j

-- The cache is empty, and nothing runs.
abbrev pub start : {V L R : Type 0} → L → R → World V L R
start l r = record {
  cache = record { kept = record { lru = l; total = 0 }; gen = []; inflight = []; refreshed = r };
  fills = [];
  version_of = λ k. 0;
  removed_at = λ k. 0;
}

module _ {V L R : Type 0} (api : Lru String V L) (leaves version : V → ℕ) (max_leaves : ℕ) where
  unfoldable pub load : ℕ → V → Option (Fill V) → World V L R → World V L R
  load n v none w = w
  load n v (some f) w =
      if version v == w.version_of f.block
      then record w { fills = set_at n (record f { result = some v }) w.fills }
      else w

  unfoldable pub finish : ℕ → Option (Fill V) → World V L R → World V L R
  finish n none w = w
  finish n (some f) w = record w {
    cache = end_fill api leaves max_leaves f.block f.result f.token w.cache;
    fills = remove_at n w.fills;
  }

  unfoldable pub step : Event V → World V L R → World V L R
  step (rebuilt k) w = record w { version_of = update w.version_of k (w.version_of k + 1) }
  step (invalidated k) w = record w {
    cache = remove api leaves max_leaves k w.cache;
    removed_at = update w.removed_at k (w.version_of k);
  }
  step (began k) w =
      let (c, token) = begin_fill k w.cache in
      record w { cache = c; fills = record { block = k; token = token; result = none } ∷ w.fills }
  step (loaded n v) w = load n v (get_elem? w.fills n) w
  step (ended n) w = finish n (get_elem? w.fills n) w
  step (looked k) w = record w { cache = (lookup_index api leaves max_leaves k w.cache).0 }

  unfoldable pub run : List (Event V) → World V L R → World V L R
  run [] w = w
  run (ev ∷ events) w = run events (step ev w)
