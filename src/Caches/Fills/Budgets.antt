-- ===== src/Caches/Fills/Budgets.antt =====
-- store/bumpcache/bumpcache.go: the leaf budget, whatever overlaps.
use arcade.Prelude.{
  ℕ, ◌-◌, inl, inr, String, List, [], ◌∷◌, Option, none, some, ◌==◌, nat_eq, string_eq, Bool-cases,
  get_elem?,
}
use arcade.Caches.Lru.{Lru}
use arcade.Caches.Budget.{
  IsBudgeted, install-IsBudgeted, drop_key-IsBudgeted, read-IsBudgeted, empty-IsBudgeted,
}
use arcade.Caches.Bumps.{
  Cache, count_of, cost, lookup_index, remove, begin_fill, deregister, install_index, end_fill,
}
use arcade.Caches.Fills.{
  Fill, World, Event, rebuilt, invalidated, began, loaded, ended, looked, load, finish, step, run,
  start,
}

module _ {V L R : Type 0} (api : Lru String V L) (leaves version : V → ℕ) (max_leaves : ℕ) where
  abbrev Ok : Cache L R → Type 0
  Ok c = IsBudgeted api (cost leaves) max_leaves c.kept

  deregister-Ok : (k : String) (c : Cache L R) → Ok c → Ok (deregister k c)
  unfolding deregister
  deregister-Ok k c h = elim (Bool-cases (count_of k c.inflight - 1 == 0)) [
    | inl b ↦ rw b h
    | inr b ↦ rw b h
  ]

  end_fill-Ok :
      (k : String) (o : Option V) (token : ℕ) (c : Cache L R)
      → Ok c
      → Ok (end_fill api leaves max_leaves k o token c)
  unfolding end_fill install_index
  end_fill-Ok k none token c h = deregister-Ok k c h
  end_fill-Ok k (some v) token c h = elim (Bool-cases (count_of k c.gen == token)) [
    | inl b ↦ rw b (
        install-IsBudgeted api (cost leaves) max_leaves k v (deregister k c).kept
          (deregister-Ok k c h))
    | inr b ↦ rw b (deregister-Ok k c h)
  ]

  load-Ok :
      (n : ℕ) (v : V) (o : Option (Fill V)) (w : World V L R)
      → Ok w.cache
      → Ok (load api leaves version max_leaves n v o w).cache
  unfolding load
  load-Ok n v none w h = h
  load-Ok n v (some f) w h = elim (Bool-cases (version v == w.version_of f.block)) [
    | inl b ↦ rw b h
    | inr b ↦ rw b h
  ]

  finish-Ok :
      (n : ℕ) (o : Option (Fill V)) (w : World V L R)
      → Ok w.cache
      → Ok (finish api leaves version max_leaves n o w).cache
  unfolding finish
  finish-Ok n none w h = h
  finish-Ok n (some f) w h = end_fill-Ok f.block f.result f.token w.cache h

  step-Ok :
      (ev : Event V) (w : World V L R)
      → Ok w.cache
      → Ok (step api leaves version max_leaves ev w).cache
  unfolding step lookup_index remove begin_fill
  step-Ok (rebuilt k) w h = h
  step-Ok (invalidated k) w h = drop_key-IsBudgeted api (cost leaves) max_leaves k w.cache.kept h
  step-Ok (began k) w h = h
  step-Ok (loaded n v) w h = load-Ok n v (get_elem? w.fills n) w h
  step-Ok (ended n) w h = finish-Ok n (get_elem? w.fills n) w h
  step-Ok (looked k) w h = read-IsBudgeted api (cost leaves) max_leaves k w.cache.kept h

  run-Ok :
      (events : List (Event V)) (w : World V L R)
      → Ok w.cache
      → Ok (run api leaves version max_leaves events w).cache
  unfolding run
  run-Ok [] w h = h
  run-Ok (ev ∷ events) w h =
      run-Ok events (step api leaves version max_leaves ev w) (step-Ok ev w h)

  -- Whatever fills, invalidations and lookups a new cache has had, in whatever order: its total is the
  -- sum of the leaves of what it caches, and is within the limit unless at most one compound is cached.
  pub run-IsBudgeted :
      (r : R) (events : List (Event V))
      → IsBudgeted api
          (cost leaves)
          max_leaves
          (run api leaves version max_leaves events (start api.empty r)).cache.kept
  run-IsBudgeted r events =
      run-Ok events (start api.empty r) (empty-IsBudgeted api (cost leaves) max_leaves)
