-- ===== src/Caches/Fills/Fresh.antt =====
-- store/bumpcache/bumpcache.go: no fill that overlaps an invalidation leaves a stale compound behind.
use arcade.Prelude.{
  ℕ, ◌+◌, ◌^◌, ◌<◌, ◌≡◌, refl, sym, subst, String, List, [], ◌∷◌, Option, none, some, arith,
  string_eq, nat_eq, length, get_elem?,
}
use arcade.Prelude.Map.{lookup}
use arcade.Caches.Lru.{Lru}
use arcade.Caches.Bumps.{count_of}
use arcade.Caches.Fills.{
  Fill, World, Event, rebuilt, invalidated, began, loaded, ended, looked, finish, step, run, start,
}
use arcade.Caches.Fills.Counts.{All-get_elem?, IsSound, Since}
use arcade.Caches.Fills.Current.{
  gens, IsCurrent, rebuilt-IsCurrent, invalidated-IsCurrent, began-IsCurrent, loaded-IsCurrent,
  looked-IsCurrent,
}
use arcade.Caches.Fills.Ending.{finished-IsCurrent}

module _ {V L R : Type 0} (api : Lru String V L) (leaves version : V → ℕ) (max_leaves : ℕ) where
  step-IsCurrent :
      (n : ℕ) (w : World V L R) (ev : Event V)
      → IsCurrent api leaves version max_leaves n w
      → n + 1 < 2 ^ 64
      → IsCurrent api leaves version max_leaves (n + 1) (step api leaves version max_leaves ev w)
  unfolding step finish
  step-IsCurrent n w (rebuilt k) v h = rebuilt-IsCurrent api leaves version max_leaves n w k v
  step-IsCurrent n w (invalidated k) v h =
      invalidated-IsCurrent api leaves version max_leaves n w k v h
  step-IsCurrent n w (began k) v h = began-IsCurrent api leaves version max_leaves n w k v
  step-IsCurrent n w (loaded i val) v h =
      loaded-IsCurrent api leaves version max_leaves n w i val v (get_elem? w.fills i) refl
  step-IsCurrent n w (ended i) v h = finish_step (get_elem? w.fills i) refl
    where
      finish_step :
          (o : Option (Fill V))
          → get_elem? w.fills i ≡ o
          → IsCurrent api leaves version max_leaves
              (n + 1)
              (finish api leaves version max_leaves i o w)
      finish_step none e = record {
        bounded = λ j. omega (arith, v.bounded j);
        counted = v.counted;
        sound = v.sound;
        fresh = v.fresh;
        ordered = v.ordered;
      }
      finish_step (some f) e =
          finished-IsCurrent api leaves version max_leaves n w i v f e f.result
            (All-get_elem? (IsSound version (gens w) w.removed_at) i w.fills f v.sound e).1
  step-IsCurrent n w (looked k) v h = looked-IsCurrent api leaves version max_leaves n w k v

  run-IsCurrent :
      (events : List (Event V)) (n : ℕ) (w : World V L R)
      → IsCurrent api leaves version max_leaves n w
      → n + length events < 2 ^ 64
      → IsCurrent api leaves version max_leaves
          (n + length events)
          (run api leaves version max_leaves events w)
  unfolding run
  run-IsCurrent [] n w v h =
      subst (λ m. IsCurrent api leaves version max_leaves m w) (omega arith) v
  run-IsCurrent (ev ∷ events) n w v h =
      subst
        (λ m.
          IsCurrent api leaves version max_leaves m
            (run api leaves version max_leaves events (step api leaves version max_leaves ev w)))
        (omega arith)
        (run-IsCurrent events (n + 1) (step api leaves version max_leaves ev w)
          (step-IsCurrent n w ev v (omega (arith, h))) (omega (arith, h)))

  start-IsCurrent : (r : R) → IsCurrent api leaves version max_leaves 0 (start api.empty r)
  unfolding count_of lookup
  start-IsCurrent r = record {
    bounded = λ j. omega arith;
    counted = λ j. refl;
    sound = tt;
    fresh = λ j. subst (λ o. Since version 0 o) (sym (api.empty_lookup j)) tt;
    ordered = λ j. omega arith;
  }

  -- From an empty cache, in whatever order fills of whatever blocks begin, read the store and end,
  -- compounds are rebuilt, removed from the cache and looked up, fewer than 2^64 times: what is
  -- cached of a block is no older than the store's version when `Remove` was last called for it.
  pub run_fresh :
      (r : R) (events : List (Event V)) (k : String)
      → length events < 2 ^ 64
      → let w = run api leaves version max_leaves events (start api.empty r) in
        Since version (w.removed_at k) (lookup k (api.contents w.cache.kept.lru))
  run_fresh r events k small = v.fresh k
    where
      v :
          IsCurrent api leaves version max_leaves
            (0 + length events)
            (run api leaves version max_leaves events (start api.empty r))
      v = run-IsCurrent events 0 (start api.empty r) (start-IsCurrent r) (omega (arith, small))
