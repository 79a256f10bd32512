-- ===== src/Teranode/Registrations.antt =====
-- teranode/client.go: what registrations do to the entry of one URL.
use arcade.Prelude.{
  ◌≡◌, refl, sym, ap, ◌∙◌, inl, inr, String, Bool, true, false, not, ◌&&◌, ◌||◌, List, [], ◌∷◌, map,
  Option, none, some, arith, ◌==◌, nat_eq, string_eq, if◌then◌else◌, contains, Bool-cases, eq_cases,
  subst,
}
use arcade.Prelude.Map.{lookup, lookup-insert}
use arcade.Teranode.{
  HealthSource, EndpointHealth, HealthConfig, Client, normalize_url, fresh, register, register_all,
  discovered,
}
use arcade.Teranode.Breaker.{Signal, observe, Event, signalled, added}
use arcade.Teranode.Health.{IsWellFormed, tripped, register-IsWellFormed}

-- One endpoint by itself: what a signal for its URL does to it, and a registration of its URL.
abbrev pub registered_by :
    HealthSource → String → List String → Option EndpointHealth → Option EndpointHealth
registered_by source u urls (some h) = some h
registered_by source u urls none =
    if not (u == "") && contains (map normalize_url urls) u then some (fresh source) else none

abbrev pub observed_by :
    HealthConfig → Signal → Bool → Option EndpointHealth → Option EndpointHealth
observed_by config s true (some h) = some (observe config s h)
observed_by config s true none = none
observed_by config s false o = o

unfoldable pub watch :
    HealthConfig → String → List Event → Option EndpointHealth → Option EndpointHealth
watch config u [] o = o
watch config u (signalled s url ∷ events) o =
    watch config u events (observed_by config s (normalize_url url == u) o)
watch config u (added urls ∷ events) o = watch config u events (registered_by discovered u urls o)

-- An endpoint may be broadcast to while no counter has reached its threshold.
abbrev pub offered : HealthConfig → Option EndpointHealth → Bool
offered config none = false
offered config (some h) = not (tripped config h)

-- What a registration of one URL does to an entry.
register-lookup :
    (source : HealthSource) (url : String) (c : Client) (u : String)
    → IsWellFormed c
    → lookup u (register source url c).0.health
      ≡ registered_by source u (url ∷ []) (lookup u c.health)
unfolding register
register-lookup source url c u v =
    let n = normalize_url url in
    elim (Bool-cases (n == "" || contains c.seen n)) [
      | inl b ↦ rw b (sym (unchanged b))
      | inr b ↦ rw b (lookup-insert n u (fresh source) c.health ∙ new b)
    ]
  where
    at_unchanged :
        (o : Option EndpointHealth)
        → (u == "" || contains c.seen u) ≡ true
        → contains c.seen u ≡ elim o [ none ↦ false | some _ ↦ true ]
        → registered_by source u (url ∷ []) o ≡ o
    at_unchanged none b r = ground (arith, b, r)
    at_unchanged (some h) b r = refl

    at_new :
        (o : Option EndpointHealth)
        → (u == "" || contains c.seen u) ≡ false
        → contains c.seen u ≡ elim o [ none ↦ false | some _ ↦ true ]
        → (normalize_url url == u) ≡ true
        → some (fresh source) ≡ registered_by source u (url ∷ []) o
    at_new none b r q = ground (arith, b, q)
    at_new (some h) b r q = absurd (ground (arith, b, r))

    unchanged :
        (normalize_url url == "" || contains c.seen (normalize_url url)) ≡ true
        → registered_by source u (url ∷ []) (lookup u c.health) ≡ lookup u c.health
    unchanged b = elim (eq_cases (normalize_url url) u) [
      | inl (q, x) ↦
          at_unchanged (lookup u c.health) (subst (λ z. (z == "" || contains c.seen z) ≡ true) x b)
            (v.registered u)
      | inr (q, x) ↦ ground (arith, q)
    ]

    new :
        (normalize_url url == "" || contains c.seen (normalize_url url)) ≡ false
        → (if normalize_url url == u then some (fresh source) else lookup u c.health)
          ≡ registered_by source u (url ∷ []) (lookup u c.health)
    new b = elim (eq_cases (normalize_url url) u) [
      | inl (q, x) ↦ rw q (
          at_new (lookup u c.health) (subst (λ z. (z == "" || contains c.seen z) ≡ false) x b)
            (v.registered u) q)
      | inr (q, x) ↦ ground (arith, q)
    ]

registered_by-compose :
    (source : HealthSource) (u url : String) (urls : List String) (o : Option EndpointHealth)
    → registered_by source u urls (registered_by source u (url ∷ []) o)
      ≡ registered_by source u (url ∷ urls) o
registered_by-compose source u url urls (some h) = refl
registered_by-compose source u url urls none = ground arith

pub register_all-lookup :
    (source : HealthSource) (urls : List String) (c : Client) (u : String)
    → IsWellFormed c
    → lookup u (register_all source urls c).0.health
      ≡ registered_by source u urls (lookup u c.health)
unfolding register_all
register_all-lookup source [] c u v = nothing (lookup u c.health)
  where
    nothing : (o : Option EndpointHealth) → o ≡ registered_by source u [] o
    nothing none = ground arith
    nothing (some h) = refl
register_all-lookup source (url ∷ urls) c u v =
    register_all-lookup source urls (register source url c).0 u
      (register-IsWellFormed source url c v)
    ∙ ap (registered_by source u urls) (register-lookup source url c u v)
    ∙ registered_by-compose source u url urls (lookup u c.health)
