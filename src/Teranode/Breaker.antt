-- ===== src/Teranode/Breaker.antt =====
-- teranode/client.go: the circuit breaker. Reachability failures, refused broadcasts and failed probes
-- are counted apart, and each count alone sidelines an endpoint.
use arcade.Prelude.{
  ℕ, ◌+◌, String, Bool, true, false, not, ◌&&◌, List, [], ◌∷◌, Option, none, some, ◌==◌, nat_eq,
  string_eq, if◌then◌else◌, ltb, leb, length,
}
use arcade.Prelude.Map.{lookup, insert}
use arcade.Teranode.{
  HealthState, healthy, unhealthy, EndpointHealth, HealthConfig, Client, normalize_url,
  is_unhealthy, healthy_among, add_endpoints,
}

-- What happens to an endpoint. A failure carries its time.
pub data Signal : Type 0 where
  succeeded : Signal
  unreachable : ℕ → Signal
  refused : ℕ → Signal
  probe_failed : ℕ → Signal
  probe_answered : Signal

abbrev recovered : EndpointHealth → EndpointHealth
recovered h = record h {
  consecutive_failures = 0;
  consecutive_broadcast_failures = 0;
  consecutive_probe_failures = 0;
  state = healthy;
}

abbrev trip : Bool → HealthState → HealthState
trip true s = unhealthy
trip false s = s

module _ (config : HealthConfig) where
  unfoldable pub failed : ℕ → EndpointHealth → EndpointHealth
  failed now h =
      let n = h.consecutive_failures + 1 in
      record h {
        consecutive_failures = n;
        last_failure = now;
        state = trip (not (is_unhealthy h.state) && leb config.failure_threshold n) h.state;
      }

  unfoldable pub broadcast_failed : ℕ → EndpointHealth → EndpointHealth
  broadcast_failed now h =
      let n = h.consecutive_broadcast_failures + 1 in
      record h {
        consecutive_broadcast_failures = n;
        last_failure = now;
        state =
            trip (not (is_unhealthy h.state) && leb config.broadcast_failure_threshold n) h.state;
      }

  unfoldable pub probe_failed_at : ℕ → EndpointHealth → EndpointHealth
  probe_failed_at now h =
      let n = h.consecutive_probe_failures + 1 in
      record h {
        consecutive_probe_failures = n;
        last_failure = now;
        state = trip (not (is_unhealthy h.state) && leb config.failure_threshold n) h.state;
      }

  -- A probe's answer is a recovery of an unhealthy endpoint, and of a healthy one resets its own
  -- counter alone.
  unfoldable pub probe_ok : EndpointHealth → EndpointHealth
  probe_ok h =
      if is_unhealthy h.state then recovered h else record h { consecutive_probe_failures = 0 }

  unfoldable pub observe : Signal → EndpointHealth → EndpointHealth
  observe succeeded h = recovered h
  observe (unreachable now) h = failed now h
  observe (refused now) h = broadcast_failed now h
  observe (probe_failed now) h = probe_failed_at now h
  observe probe_answered h = probe_ok h

-- `recomputeBelowThresholdLocked`.
unfoldable pub recompute : Client → Client
recompute c = if c.config.min_healthy_endpoints == 0 then c else record c {
  below_threshold =
      ltb (length (healthy_among c.health c.endpoints)) c.config.min_healthy_endpoints;
}

-- The answer of a probe to a healthy endpoint leaves the warning alone.
abbrev pub recomputes : Signal → EndpointHealth → Bool
recomputes probe_answered h = is_unhealthy h.state
recomputes s h = true

unfoldable pub record_found : Signal → String → Option EndpointHealth → Client → Client
record_found s n none c = c
record_found s n (some h) c =
    let c' : Client = record c { health = insert n (observe c.config s h) c.health } in
    if recomputes s h then recompute c' else c'

-- RecordSuccess, RecordFailure, RecordBroadcastFailure, recordProbeFailure, recordProbeSuccess.
unfoldable pub record_signal : Signal → String → Client → Client
record_signal s url c = let n = normalize_url url in record_found s n (lookup n c.health) c

pub data Event : Type 0 where
  signalled : Signal → String → Event
  added : List String → Event

unfoldable pub step : Event → Client → Client
step (signalled s url) c = record_signal s url c
step (added urls) c = (add_endpoints urls c).0

unfoldable pub run : List Event → Client → Client
run [] c = c
run (e ∷ events) c = run events (step e c)
