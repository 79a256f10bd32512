-- ===== src/Teranode/Offers.antt =====
-- teranode/client.go: the broadcast set, against one breaker per URL.
use arcade.Prelude.{
  ◌≡◌, refl, sym, ap, ◌∙◌, inl, inr, String, Bool, true, false, not, ◌&&◌, ◌||◌, List, [], ◌∷◌,
  Option, none, some, arith, ◌==◌, nat_eq, string_eq, contains, Bool-cases, eq_cases,
}
use arcade.Prelude.Map.{Map, lookup, insert, lookup-insert}
use arcade.Teranode.{
  HealthSource, EndpointHealth, HealthConfig, Client, normalize_url, is_live, healthy_among,
  register, register_all, add_endpoints, discovered, configured, new_client, get_healthy_endpoints,
}
use arcade.Teranode.Breaker.{
  Signal, observe, recomputes, recompute, record_found, record_signal, Event, signalled, added,
  step, run,
}
use arcade.Teranode.Health.{
  IsWellFormed, empty_client, lookup-empty, empty_client-IsWellFormed, run-IsWellFormed,
  register_all-IsWellFormed, step-IsWellFormed,
}
use arcade.Teranode.Registrations.{registered_by, observed_by, watch, offered, register_all-lookup}

healthy_among-contains :
    (health : Map String EndpointHealth) (eps : List String) (u : String)
    → contains (healthy_among health eps) u ≡ (contains eps u && is_live (lookup u health))
unfolding healthy_among
healthy_among-contains health [] u = refl
healthy_among-contains health (ep ∷ eps) u = elim (eq_cases ep u) [
  | inr (b, x) ↦ ground (arith, b, healthy_among-contains health eps u)
  | inl (b, x) ↦
      ground (arith, b, ap (λ z. is_live (lookup z health)) x, healthy_among-contains health eps u)
]

recompute-health : (c : Client) → (recompute c).health ≡ c.health
unfolding recompute
recompute-health c = ground arith

recompute-config : (c : Client) → (recompute c).config ≡ c.config
unfolding recompute
recompute-config c = ground arith

observed_by-none :
    (config : HealthConfig) (s : Signal) (b : Bool) → observed_by config s b none ≡ none
observed_by-none config s true = refl
observed_by-none config s false = refl

observed-lookup :
    (s : Signal) (n u : String) (h : EndpointHealth) (c : Client)
    → lookup n c.health ≡ some h
    → lookup u (insert n (observe c.config s h) c.health)
      ≡ observed_by c.config s (n == u) (lookup u c.health)
observed-lookup s n u h c e =
    lookup-insert n u (observe c.config s h) c.health ∙ elim (eq_cases n u) [
      | inl (b, x) ↦ rw b (ap (observed_by c.config s true) (sym e ∙ ap (λ z. lookup z c.health) x))
      | inr (b, x) ↦ rw b refl
    ]

record_found-lookup :
    (s : Signal) (n u : String) (o : Option EndpointHealth) (c : Client)
    → lookup n c.health ≡ o
    → lookup u (record_found s n o c).health ≡ observed_by c.config s (n == u) (lookup u c.health)
unfolding record_found
record_found-lookup s n u none c e = elim (eq_cases n u) [
  | inl (b, x) ↦ rw b (gone (sym (ap (λ z. lookup z c.health) x) ∙ e))
  | inr (b, x) ↦ rw b refl
]
  where
    gone :
        lookup u c.health ≡ none
        → lookup u c.health ≡ observed_by c.config s true (lookup u c.health)
    gone q = q ∙ sym (ap (observed_by c.config s true) q)
record_found-lookup s n u (some h) c e = elim (Bool-cases (recomputes s h)) [
  | inl b ↦ rw b (
      ap (lookup u)
        (recompute-health (record c { health = insert n (observe c.config s h) c.health }))
      ∙ observed-lookup s n u h c e)
  | inr b ↦ rw b (observed-lookup s n u h c e)
]

record_found-config :
    (s : Signal) (n : String) (o : Option EndpointHealth) (c : Client)
    → (record_found s n o c).config ≡ c.config
unfolding record_found
record_found-config s n none c = refl
record_found-config s n (some h) c = elim (Bool-cases (recomputes s h)) [
  | inl b ↦ rw b (recompute-config (record c { health = insert n (observe c.config s h) c.health }))
  | inr b ↦ rw b refl
]

register_all-config :
    (source : HealthSource) (urls : List String) (c : Client)
    → (register_all source urls c).0.config ≡ c.config
unfolding register_all register
register_all-config source [] c = refl
register_all-config source (u ∷ urls) c =
    register_all-config source urls (register source u c).0
    ∙ elim (Bool-cases (normalize_url u == "" || contains c.seen (normalize_url u))) [
      | inl b ↦ rw b refl
      | inr b ↦ rw b refl
    ]

step-config : (e : Event) (c : Client) → (step e c).config ≡ c.config
unfolding step record_signal add_endpoints
step-config (signalled s url) c =
    record_found-config s (normalize_url url) (lookup (normalize_url url) c.health) c
step-config (added urls) c = register_all-config discovered urls c

run-config : (events : List Event) (c : Client) → (run events c).config ≡ c.config
unfolding run
run-config [] c = refl
run-config (e ∷ events) c = run-config events (step e c) ∙ step-config e c

-- Every entry of a client moves by itself.
run-watch :
    (events : List Event) (c : Client) (u : String)
    → IsWellFormed c
    → lookup u (run events c).health ≡ watch c.config u events (lookup u c.health)
unfolding run watch step record_signal add_endpoints
run-watch [] c u v = refl
run-watch (signalled s url ∷ events) c u v =
    let n = normalize_url url in
    let c' = record_found s n (lookup n c.health) c in
    run-watch events c' u (step-IsWellFormed (signalled s url) c v)
    ∙ ap (λ k. watch k u events (lookup u c'.health))
        (record_found-config s n (lookup n c.health) c)
    ∙ ap (watch c.config u events) (record_found-lookup s n u (lookup n c.health) c refl)
run-watch (added urls ∷ events) c u v =
    let c' = (register_all discovered urls c).0 in
    run-watch events c' u (step-IsWellFormed (added urls) c v)
    ∙ ap (λ k. watch k u events (lookup u c'.health)) (register_all-config discovered urls c)
    ∙ ap (watch c.config u events) (register_all-lookup discovered urls c u v)

-- The broadcast set of a well-formed client, by its counters.
healthy-offered :
    (c : Client) (u : String)
    → IsWellFormed c
    → contains (get_healthy_endpoints c) u ≡ offered c.config (lookup u c.health)
unfolding get_healthy_endpoints
healthy-offered c u v =
    healthy_among-contains c.health c.endpoints u
    ∙ ap (λ b. b && is_live (lookup u c.health)) (v.listed u ∙ v.registered u)
    ∙ live (lookup u c.health) refl
  where
    live :
        (o : Option EndpointHealth)
        → lookup u c.health ≡ o
        → (elim o [ none ↦ false | some _ ↦ true ] && is_live o) ≡ offered c.config o
    live none e = refl
    live (some h) e = ap not (v.sound u h e)

-- What a new client has of a URL.
abbrev pub seeded : List String → String → Option EndpointHealth
seeded urls u = registered_by configured u urls none

-- For every URL, whatever a new client registers and records for it and for others, in whatever order:
-- the client's health entry for it is that of one circuit breaker that sees the registrations and the
-- signals of this URL alone, and the client broadcasts to it exactly when it is registered and none of
-- the breaker's three counters has reached its threshold.
pub get_healthy_endpoints-watch :
    (urls : List String) (hc : HealthConfig) (events : List Event) (u : String)
    → let c = run events (new_client urls hc) in
      (lookup u c.health ≡ watch c.config u events (seeded urls u))
      × (contains (get_healthy_endpoints c) u
          ≡ offered c.config (watch c.config u events (seeded urls u)))
unfolding new_client
get_healthy_endpoints-watch urls hc events u = (
  entry,
  healthy-offered (run events start) u (run-IsWellFormed events start started)
      ∙ ap (offered (run events start).config) entry,
)
  where
    start : Client
    start = (register_all configured urls (empty_client hc)).0

    started : IsWellFormed start
    started =
        register_all-IsWellFormed configured urls (empty_client hc) (empty_client-IsWellFormed hc)

    entry :
        lookup u (run events start).health
        ≡ watch (run events start).config u events (seeded urls u)
    entry =
        run-watch events start u started
        ∙ ap (λ k. watch k u events (lookup u start.health)) (sym (run-config events start))
        ∙ ap (watch (run events start).config u events) (
            register_all-lookup configured urls (empty_client hc) u (empty_client-IsWellFormed hc)
            ∙ ap (registered_by configured u urls) (lookup-empty u))
