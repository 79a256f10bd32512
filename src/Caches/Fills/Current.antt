-- ===== src/Caches/Fills/Current.antt =====
-- store/bumpcache/bumpcache.go: what each event of the fills keeps, but for the end of a fill.
use arcade.Prelude.{
  ℕ, ◌+◌, ◌%◌, ◌^◌, ◌≤◌, ◌<◌, ◌≡◌, ◌≢◌, refl, sym, subst, ◌∙◌, inl, inr, String, Option, none, some,
  arith, ◌==◌, string_eq, nat_eq, if◌then◌else◌, ltb, get_elem?, All, Bool-cases,
}
use arcade.Prelude.Map.{Map, lookup, insert}
use arcade.Caches.Lru.{Lru}
use arcade.Caches.Budget.{drop_key, drop_key-lookup, read-lookup}
use arcade.Caches.Bumps.{count_of, cost, lookup_index, remove, begin_fill}
use arcade.Caches.Fills.{Fill, World, rebuilt, invalidated, began, looked, update, load, step}
use arcade.Caches.Fills.Counts.{
  count_of-insert, running, running-set_at, All-get_elem?, All-set_at, IsSound, IsSound-invalidated,
  Since,
}

abbrev pub gens : {V L R : Type 0} → World V L R → String → ℕ
gens w k = count_of k w.cache.gen

module _ {V L R : Type 0} (api : Lru String V L) (leaves version : V → ℕ) (max_leaves : ℕ) where
  abbrev cached : World V L R → String → Option V
  cached w k = lookup k (api.contents w.cache.kept.lru)

  -- After at most `n` events.
  pub record IsCurrent (n : ℕ) (w : World V L R) : Type 0 where
    pub bounded : (k : String) → gens w k ≤ n
    pub counted : (k : String) → count_of k w.cache.inflight ≡ running k w.fills
    pub sound : All (IsSound version (gens w) w.removed_at) w.fills
    pub fresh : (k : String) → Since version (w.removed_at k) (cached w k)
    pub ordered : (k : String) → w.removed_at k ≤ w.version_of k

  pub rebuilt-IsCurrent :
      (n : ℕ) (w : World V L R) (k : String)
      → IsCurrent n w
      → IsCurrent (n + 1) (step api leaves version max_leaves (rebuilt k) w)
  unfolding step
  rebuilt-IsCurrent n w k v = record {
    bounded = λ j. omega (arith, v.bounded j);
    counted = v.counted;
    sound = v.sound;
    fresh = v.fresh;
    ordered = λ j. ground (arith, v.ordered j, string_eq.beq_iff k j);
  }

  pub looked-IsCurrent :
      (n : ℕ) (w : World V L R) (k : String)
      → IsCurrent n w
      → IsCurrent (n + 1) (step api leaves version max_leaves (looked k) w)
  unfolding step lookup_index
  looked-IsCurrent n w k v = record {
    bounded = λ j. omega (arith, v.bounded j);
    counted = v.counted;
    sound = v.sound;
    fresh = λ j.
        subst (λ o. Since version (w.removed_at j) o)
          (sym (read-lookup api (cost leaves) k j w.cache.kept)) (v.fresh j);
    ordered = v.ordered;
  }

  pub began-IsCurrent :
      (n : ℕ) (w : World V L R) (k : String)
      → IsCurrent n w
      → IsCurrent (n + 1) (step api leaves version max_leaves (began k) w)
  unfolding step begin_fill
  began-IsCurrent n w k v = record {
    bounded = λ j. omega (arith, v.bounded j);
    counted = λ j. ground (
      arith,
      v.counted j,
      v.counted k,
      string_eq.beq_iff k j,
      count_of-insert k j (count_of k w.cache.inflight + 1) w.cache.inflight,
    );
    sound = ((omega arith, λ q. tt), v.sound);
    fresh = v.fresh;
    ordered = v.ordered;
  }

  -- The generations after an invalidation.
  module _ (w : World V L R) (k : String) where
    abbrev gen_removed : Map String ℕ
    gen_removed =
        if ltb 0 (count_of k w.cache.inflight)
        then insert k ((count_of k w.cache.gen + 1) % 2 ^ 64) w.cache.gen
        else w.cache.gen

    gen_removed-other : (j : String) → k ≢ j → count_of j gen_removed ≡ gens w j
    gen_removed-other j h = ground (
      arith,
      count_of-insert k j ((count_of k w.cache.gen + 1) % 2 ^ 64) w.cache.gen,
      string_eq.beq_iff k j,
    )

    gen_removed-moves :
        gens w k + 1 < 2 ^ 64
        → 0 < count_of k w.cache.inflight
        → count_of k gen_removed ≡ gens w k + 1
    gen_removed-moves small h = ground (
      arith,
      count_of-insert k k ((count_of k w.cache.gen + 1) % 2 ^ 64) w.cache.gen,
      string_eq.beq_iff k k,
    )

    gen_removed-le : (j : String) → gens w k + 1 < 2 ^ 64 → count_of j gen_removed ≤ gens w j + 1
    gen_removed-le j small = ground (
      arith,
      count_of-insert k j ((count_of k w.cache.gen + 1) % 2 ^ 64) w.cache.gen,
      string_eq.beq_iff k j,
    )

  since-removed :
      (w : World V L R) (k j : String)
      → Since version (w.removed_at j) (cached w j)
      → Since version
          (update w.removed_at k (w.version_of k) j)
          (lookup j (api.contents (drop_key api (cost leaves) k w.cache.kept).lru))
  since-removed w k j h = elim (Bool-cases (k == j)) [
    | inl b ↦ rw (drop_key-lookup api (cost leaves) k j w.cache.kept, b) tt
    | inr b ↦ rw (drop_key-lookup api (cost leaves) k j w.cache.kept, b) h
  ]

  pub invalidated-IsCurrent :
      (n : ℕ) (w : World V L R) (k : String)
      → IsCurrent n w
      → n + 1 < 2 ^ 64
      → IsCurrent (n + 1) (step api leaves version max_leaves (invalidated k) w)
  unfolding step remove
  invalidated-IsCurrent n w k v small =
      let fits : gens w k + 1 < 2 ^ 64 = omega (arith, small, v.bounded k) in
      record {
        bounded = λ j. omega (arith, gen_removed-le w k j fits, v.bounded j);
        counted = v.counted;
        sound =
            IsSound-invalidated version (gens w) (λ j. count_of j (gen_removed w k)) w.removed_at k
              (w.version_of k) w.fills (gen_removed-other w k)
              (λ r. omega (arith, gen_removed-moves w k fits (omega (arith, r, v.counted k))))
              v.sound;
        fresh = λ j. since-removed w k j (v.fresh j);
        ordered = λ j. ground (arith, v.ordered j, string_eq.beq_iff k j);
      }

  pub loaded-IsCurrent :
      (n : ℕ) (w : World V L R) (i : ℕ) (val : V)
      → IsCurrent n w
      → (o : Option (Fill V)) → get_elem? w.fills i ≡ o
      → IsCurrent (n + 1) (load api leaves version max_leaves i val o w)
  unfolding load
  loaded-IsCurrent n w i val v none e = record {
    bounded = λ j. omega (arith, v.bounded j);
    counted = v.counted;
    sound = v.sound;
    fresh = v.fresh;
    ordered = v.ordered;
  }
  loaded-IsCurrent n w i val v (some f) e =
      elim (Bool-cases (version val == w.version_of f.block)) [
        | inr b ↦ rw b (record {
          bounded = λ j. omega (arith, v.bounded j);
          counted = v.counted;
          sound = v.sound;
          fresh = v.fresh;
          ordered = v.ordered;
        })
        | inl b ↦
            let g : Fill V = record f { result = some val } in
            rw b (record {
              bounded = λ j. omega (arith, v.bounded j);
              counted = λ j. v.counted j ∙ sym (running-set_at j i w.fills f g e refl);
              sound =
                  All-set_at (IsSound version (gens w) w.removed_at) i g w.fills
                    (
                      (All-get_elem? (IsSound version (gens w) w.removed_at) i w.fills f v.sound
                          e).0,
                      λ q. ground (arith, b, v.ordered f.block),
                    )
                    v.sound;
              fresh = v.fresh;
              ordered = v.ordered;
            })
      ]
