-- ===== src/Teranode/Health.antt =====
-- teranode/client.go: which endpoints a client broadcasts to, whatever it registered and recorded.
use arcade.Prelude.{
  ℕ, ◌<◌, ◌≡◌, refl, sym, ap, ◌∙◌, inl, inr, String, Bool, true, false, ◌||◌, List, [], ◌∷◌, Option,
  none, some, arith, ◌==◌, nat_eq, string_eq, if◌then◌else◌, leb, contains, contains-append,
  Bool-cases, eq_cases, subst,
}
use arcade.Prelude.Map.{Map, lookup, insert, member, lookup-insert, lookup-insert_cases}
use arcade.Teranode.{
  HealthSource, EndpointHealth, HealthConfig, Client, normalize_url, is_unhealthy, fresh, register,
  register_all, add_endpoints, discovered, positive_or,
}
use arcade.Teranode.Breaker.{
  Signal, succeeded, unreachable, refused, probe_failed, probe_answered, failed, broadcast_failed,
  probe_failed_at, probe_ok, observe, recomputes, recompute, record_found, record_signal, Event,
  signalled, added, step, run,
}

-- One of the counters has reached its threshold.
unfoldable pub tripped : HealthConfig → EndpointHealth → Bool
tripped config h =
    leb config.failure_threshold h.consecutive_failures
    || leb config.broadcast_failure_threshold h.consecutive_broadcast_failures
    || leb config.failure_threshold h.consecutive_probe_failures

module _ (config : HealthConfig) (p : 0 < config.failure_threshold)
    (q : 0 < config.broadcast_failure_threshold) where
  abbrev IsSound : EndpointHealth → Type 0
  IsSound h = is_unhealthy h.state ≡ tripped config h

  fresh-IsSound : (source : HealthSource) → IsSound (fresh source)
  unfolding tripped
  fresh-IsSound source = ground arith

  observe-IsSound : (s : Signal) (h : EndpointHealth) → IsSound h → IsSound (observe config s h)
  unfolding tripped observe failed broadcast_failed probe_failed_at probe_ok
  observe-IsSound succeeded h v = ground arith
  observe-IsSound (unreachable now) h v = ground (arith, v)
  observe-IsSound (refused now) h v = ground (arith, v)
  observe-IsSound (probe_failed now) h v = ground (arith, v)
  observe-IsSound probe_answered h v = ground (arith, v)

-- What the registration and the records keep, on thresholds that are not zero.
pub record IsWellFormed (c : Client) : Type 0 where
  pub positive : 0 < c.config.failure_threshold
  pub positive_broadcast : 0 < c.config.broadcast_failure_threshold
  pub registered : (n : String) → contains c.seen n ≡ member n c.health
  pub listed : (n : String) → contains c.endpoints n ≡ contains c.seen n
  pub sound :
      (n : String) (h : EndpointHealth)
      → lookup n c.health ≡ some h
      → is_unhealthy h.state ≡ tripped c.config h

some-if :
    {W : Type 0} (b : Bool) (v : W) (o : Option W)
    → elim (if b then some v else o) [ none ↦ false | some _ ↦ true ]
      ≡ (b || elim o [ none ↦ false | some _ ↦ true ])
some-if true v o = refl
some-if false v o = refl

member-insert :
    {W : Type 0} (k j : String) (v : W) (m : Map String W)
    → member j (insert k v m) ≡ (k == j || member j m)
member-insert k j v m =
    ap (λ z. elim z [ none ↦ false | some _ ↦ true ]) (lookup-insert k j v m)
    ∙ some-if (k == j) v (lookup j m)

recompute-IsWellFormed : (c : Client) → IsWellFormed c → IsWellFormed (recompute c)
unfolding recompute
recompute-IsWellFormed c v = elim (Bool-cases (c.config.min_healthy_endpoints == 0)) [
  | inl b ↦ rw b v
  | inr b ↦ rw b (record {
    positive = v.positive;
    positive_broadcast = v.positive_broadcast;
    registered = v.registered;
    listed = v.listed;
    sound = v.sound;
  })
]

sound_insert :
    (c : Client) (n : String) (u : EndpointHealth)
    → IsWellFormed c
    → is_unhealthy u.state ≡ tripped c.config u
    → (j : String) (h : EndpointHealth) → lookup j (insert n u c.health) ≡ some h
    → is_unhealthy h.state ≡ tripped c.config h
sound_insert c n u v s j h e = elim (lookup-insert_cases n j u h c.health e) [
  | inl (x, y) ↦ subst (λ z. is_unhealthy z.state ≡ tripped c.config z) y s
  | inr (x, y) ↦ v.sound j h y
]

observed-IsWellFormed :
    (s : Signal) (n : String) (h : EndpointHealth) (c : Client)
    → lookup n c.health ≡ some h
    → IsWellFormed c
    → IsWellFormed (record c { health = insert n (observe c.config s h) c.health })
observed-IsWellFormed s n h c e v = record {
  positive = v.positive;
  positive_broadcast = v.positive_broadcast;
  registered =
      λ j. v.registered j ∙ sym (member-insert n j (observe c.config s h) c.health ∙ same j);
  listed = v.listed;
  sound =
      sound_insert c n (observe c.config s h) v
        (observe-IsSound c.config v.positive v.positive_broadcast s h (v.sound n h e));
}
  where
    same : (j : String) → (n == j || member j c.health) ≡ member j c.health
    same j = elim (eq_cases n j) [
      | inl (b, x) ↦ rw b (
          sym (
            ap (λ o. elim o [ none ↦ false | some _ ↦ true ])
              (ap (λ z. lookup z c.health) (sym x) ∙ e)))
      | inr (b, x) ↦ rw b refl
    ]

record_found-IsWellFormed :
    (s : Signal) (n : String) (o : Option EndpointHealth) (c : Client)
    → lookup n c.health ≡ o
    → IsWellFormed c
    → IsWellFormed (record_found s n o c)
unfolding record_found
record_found-IsWellFormed s n none c e v = v
record_found-IsWellFormed s n (some h) c e v = elim (Bool-cases (recomputes s h)) [
  | inl b ↦ rw b (
      recompute-IsWellFormed (record c { health = insert n (observe c.config s h) c.health })
        (observed-IsWellFormed s n h c e v))
  | inr b ↦ rw b (observed-IsWellFormed s n h c e v)
]

pub register-IsWellFormed :
    (source : HealthSource) (u : String) (c : Client)
    → IsWellFormed c
    → IsWellFormed (register source u c).0
unfolding register
register-IsWellFormed source u c v =
    let n = normalize_url u in
    elim (Bool-cases (n == "" || contains c.seen n)) [
      | inl b ↦ rw b v
      | inr b ↦ rw b (record {
        positive = v.positive;
        positive_broadcast = v.positive_broadcast;
        registered = λ j.
            ap (λ b. n == j || b) (v.registered j)
            ∙ sym (member-insert n j (fresh source) c.health);
        listed = λ j. contains-append c.endpoints (n ∷ []) j ∙ ground (arith, v.listed j);
        sound =
            sound_insert c n (fresh source) v
              (fresh-IsSound c.config v.positive v.positive_broadcast source);
      })
    ]

pub register_all-IsWellFormed :
    (source : HealthSource) (urls : List String) (c : Client)
    → IsWellFormed c
    → IsWellFormed (register_all source urls c).0
unfolding register_all
register_all-IsWellFormed source [] c v = v
register_all-IsWellFormed source (u ∷ urls) c v =
    register_all-IsWellFormed source urls (register source u c).0
      (register-IsWellFormed source u c v)

pub step-IsWellFormed : (e : Event) (c : Client) → IsWellFormed c → IsWellFormed (step e c)
unfolding step record_signal add_endpoints
step-IsWellFormed (signalled s url) c v =
    record_found-IsWellFormed s (normalize_url url) (lookup (normalize_url url) c.health) c refl v
step-IsWellFormed (added urls) c v = register_all-IsWellFormed discovered urls c v

pub run-IsWellFormed :
    (events : List Event) (c : Client) → IsWellFormed c → IsWellFormed (run events c)
unfolding run
run-IsWellFormed [] c v = v
run-IsWellFormed (e ∷ events) c v = run-IsWellFormed events (step e c) (step-IsWellFormed e c v)

positive_or-positive : (d n : ℕ) → 0 < d → 0 < positive_or d n
unfolding positive_or
positive_or-positive d n h = ground (arith, h)

abbrev pub empty_client : HealthConfig → Client
empty_client hc = record {
  config = record {
    failure_threshold = positive_or 3 hc.failure_threshold;
    broadcast_failure_threshold = positive_or 10 hc.broadcast_failure_threshold;
    min_healthy_endpoints = hc.min_healthy_endpoints;
  };
  endpoints = [];
  seen = [];
  health = [];
  below_threshold = false;
}

pub lookup-empty : {W : Type 0} (j : String) → lookup {V = W} j [] ≡ none
unfolding lookup
lookup-empty j = refl

pub empty_client-IsWellFormed : (hc : HealthConfig) → IsWellFormed (empty_client hc)
empty_client-IsWellFormed hc = record {
  positive = positive_or-positive 3 hc.failure_threshold (omega arith);
  positive_broadcast = positive_or-positive 10 hc.broadcast_failure_threshold (omega arith);
  registered = λ j.
      sym (ap (λ o. elim o [ none ↦ false | some _ ↦ true ]) (lookup-empty {W = EndpointHealth} j));
  listed = λ j. refl;
  sound = λ j h e. absurd (ground (arith, sym (lookup-empty {W = EndpointHealth} j) ∙ e));
}
