-- ===== src/Caches/Fills/Ending.antt =====
-- store/bumpcache/bumpcache.go: the end of a fill, which deregisters it and may install.
use arcade.Prelude.{
  ℕ, ◌+◌, ◌-◌, ◌≤◌, ◌<◌, ◌≡◌, refl, sym, ap, subst, ◌∙◌, inl, inr, String, Option, none, some,
  arith, ◌==◌, string_eq, nat_eq, if◌then◌else◌, get_elem?, eq_cases,
}
use arcade.Prelude.Map.{lookup}
use arcade.Caches.Lru.{Lru}
use arcade.Caches.Budget.{install-Part}
use arcade.Caches.Bumps.{Cache, count_of, cost, deregister, install_index, end_fill}
use arcade.Caches.Fills.{Fill, World, remove_at}
use arcade.Caches.Fills.Counts.{
  count_of-insert, count_of-delete, running, running-remove_at, All-remove_at, IsSound,
  IsSound-elsewhere, Since,
}
use arcade.Caches.Fills.Current.{gens, IsCurrent}

module _ {V L R : Type 0} (api : Lru String V L) (leaves version : V → ℕ) (max_leaves : ℕ) where
  -- The counters after a fill is deregistered.
  module _ (w : World V L R) (k : String) where
    deregistered-gen :
        (j : String)
        → (k ≡ j → 1 < count_of j w.cache.inflight)
        → count_of j (deregister k w.cache).gen ≡ gens w j
    unfolding deregister
    deregistered-gen j h = ground (arith, h, count_of-delete k j w.cache.gen, string_eq.beq_iff k j)

    deregistered-le : (j : String) → count_of j (deregister k w.cache).gen ≤ gens w j
    unfolding deregister
    deregistered-le j = ground (arith, count_of-delete k j w.cache.gen)

    deregistered-inflight :
        (j : String)
        → count_of j (deregister k w.cache).inflight
          ≡ (if k == j then count_of k w.cache.inflight - 1 else count_of j w.cache.inflight)
    unfolding deregister
    deregistered-inflight j = ground (
      arith,
      count_of-delete k j w.cache.inflight,
      count_of-insert k j (count_of k w.cache.inflight - 1) w.cache.inflight,
      string_eq.beq_iff k j,
    )

    deregistered-kept : (deregister k w.cache).kept ≡ w.cache.kept
    unfolding deregister
    deregistered-kept = ground arith

  module _ (n : ℕ) (w : World V L R) (i : ℕ) (v : IsCurrent api leaves version max_leaves n w)
      (f : Fill V) (e : get_elem? w.fills i ≡ some f) where
    still_running :
        (k : String)
        → 0 < running k (remove_at i w.fills)
        → f.block ≡ k
        → 1 < count_of k w.cache.inflight
    still_running k h x =
        ground
          (arith, h, x, v.counted k, running-remove_at k i w.fills f e, string_eq.beq_iff f.block k)

    -- Whatever the end of the fill leaves in the cache, if that is no older than the invalidations.
    ended-with :
        (c : Cache L R)
        → c.gen ≡ (deregister f.block w.cache).gen
        → c.inflight ≡ (deregister f.block w.cache).inflight
        → ((j : String) → Since version (w.removed_at j) (lookup j (api.contents c.kept.lru)))
        → IsCurrent api leaves version max_leaves
            (n + 1)
            (record w { cache = c; fills = remove_at i w.fills })
    ended-with c g h k = record {
      bounded =
          λ j. omega (arith, deregistered-le w f.block j, v.bounded j, ap (λ m. count_of j m) g);
      counted = λ j. ground (
        arith,
        ap (λ m. count_of j m) h,
        deregistered-inflight w f.block j,
        running-remove_at j i w.fills f e,
        v.counted j,
        v.counted f.block,
        string_eq.beq_iff f.block j,
      );
      sound =
          IsSound-elsewhere version (gens w) (λ j. count_of j c.gen) w.removed_at w.removed_at
            (remove_at i w.fills)
            (λ j r.
              (ap (λ m. count_of j m) g ∙ deregistered-gen w f.block j (still_running j r), refl))
            (All-remove_at (IsSound version (gens w) w.removed_at) i w.fills v.sound);
      fresh = k;
      ordered = v.ordered;
    }

    kept_fresh :
        (j : String)
        → Since version
            (w.removed_at j)
            (lookup j (api.contents (deregister f.block w.cache).kept.lru))
    kept_fresh j =
        subst (λ c. Since version (w.removed_at j) (lookup j (api.contents c.lru)))
          (sym (deregistered-kept w f.block)) (v.fresh j)

    ended-without :
        IsCurrent api leaves version max_leaves
          (n + 1)
          (record w { cache = deregister f.block w.cache; fills = remove_at i w.fills })
    ended-without = ended-with (deregister f.block w.cache) refl refl kept_fresh

    installed_fresh :
        (val : V)
        → w.removed_at f.block ≤ version val
        → (j : String)
        → Since version (w.removed_at j) (
            lookup j (
              api.contents
                (install_index api leaves max_leaves f.block val
                  (deregister f.block w.cache)).kept.lru))
    unfolding install_index
    installed_fresh val h j =
        let c : Cache L R = deregister f.block w.cache in
        elim (install-Part api (cost leaves) (λ k. lookup k (api.contents c.kept.lru)) max_leaves
          f.block val c.kept (λ k. inr refl) j) [
            | inl m ↦ subst (λ o. Since version (w.removed_at j) o) (sym m) tt
            | inr m ↦
                subst (λ o. Since version (w.removed_at j) o) (sym m)
                  (elim (eq_cases f.block j) [
                    | inl (b, x) ↦ rw b (subst (λ z. w.removed_at z ≤ version val) x h)
                    | inr (b, x) ↦ rw b (kept_fresh j)
                  ])
          ]

    pub finished-IsCurrent :
        (o : Option V)
        → (gens w f.block ≡ f.token → Since version (w.removed_at f.block) o)
        → IsCurrent api leaves version max_leaves (n + 1) (record w {
          cache = end_fill api leaves max_leaves f.block o f.token w.cache;
          fills = remove_at i w.fills;
        })
    unfolding end_fill install_index
    finished-IsCurrent none h = ended-without
    finished-IsCurrent (some val) h = elim (eq_cases (gens w f.block) f.token) [
      | inr (b, x) ↦ rw b ended-without
      | inl (b, x) ↦ rw b (
          ended-with (install_index api leaves max_leaves f.block val (deregister f.block w.cache))
            refl refl (installed_fresh val (h x)))
    ]
