-- ===== src/Teranode.antt =====
-- teranode/client.go: the endpoints that the client broadcasts to, and the circuit breaker of each. The
-- mutex orders the calls, so a run is a sequence of them. Metrics and logs are left out.
use arcade.Prelude.{
  ℕ, ◌+◌, ◌-◌, ◌≡◌, String, Bool, true, false, not, ◌&&◌, ◌||◌, List, [], ◌∷◌, ◌++◌, Option, none,
  some, ◌==◌, nat_eq, string_eq, if◌then◌else◌, ltb, leb, contains,
}
use arcade.Prelude.Map.{Map, lookup, insert}
use Prim.Native.String.{len, slice}
pub mod Breaker
pub mod Health
pub mod Offers
pub mod Submit
pub mod Registrations

pub data HealthState : Type 0 where
  healthy : HealthState
  unhealthy : HealthState

pub data HealthSource : Type 0 where
  configured : HealthSource
  discovered : HealthSource

pub record EndpointHealth : Type 0 where
  pub consecutive_failures : ℕ
  pub consecutive_broadcast_failures : ℕ
  pub consecutive_probe_failures : ℕ
  pub last_failure : ℕ
  pub state : HealthState
  pub source : HealthSource

pub record HealthConfig : Type 0 where
  pub failure_threshold : ℕ
  pub broadcast_failure_threshold : ℕ
  pub min_healthy_endpoints : ℕ

pub record Client : Type 0 where
  pub config : HealthConfig
  pub endpoints : List String
  pub seen : List String
  pub health : Map String EndpointHealth
  pub below_threshold : Bool

pub record EndpointStatus : Type 0 where
  pub url : String
  pub source_label : String
  pub is_healthy : Bool

-- One trailing slash is trimmed.
unfoldable pub normalize_url : String → String
normalize_url u = if slice u (len u - 1) (len u) == "/" then slice u 0 (len u - 1) else u

abbrev pub is_unhealthy : HealthState → Bool
is_unhealthy healthy = false
is_unhealthy unhealthy = true

unfoldable pub source_label_of : HealthSource → String
source_label_of configured = "configured"
source_label_of discovered = "discovered"

abbrev pub fresh : HealthSource → EndpointHealth
fresh source = record {
  consecutive_failures = 0;
  consecutive_broadcast_failures = 0;
  consecutive_probe_failures = 0;
  last_failure = 0;
  state = healthy;
  source = source;
}

-- A URL that is not empty and not seen is registered as healthy.
unfoldable pub register : HealthSource → String → Client → Client × ℕ
register source u c =
    let n = normalize_url u in
    if n == "" || contains c.seen n then (c, 0) else (
      record c {
        seen = n ∷ c.seen;
        endpoints = c.endpoints ++ n ∷ [];
        health = insert n (fresh source) c.health;
      },
      1,
    )

unfoldable pub register_all : HealthSource → List String → Client → Client × ℕ
register_all source [] c = (c, 0)
register_all source (u ∷ urls) c =
    let (c', added) = register source u c in
    let (c'', more) = register_all source urls c' in (c'', added + more)

unfoldable pub positive_or : ℕ → ℕ → ℕ
positive_or default n = if n == 0 then default else n

-- `NewClient`: the defaults, and the configured endpoints.
unfoldable pub new_client : List String → HealthConfig → Client
new_client urls hc =
    (register_all configured urls (record {
      config = record {
        failure_threshold = positive_or 3 hc.failure_threshold;
        broadcast_failure_threshold = positive_or 10 hc.broadcast_failure_threshold;
        min_healthy_endpoints = hc.min_healthy_endpoints;
      };
      endpoints = [];
      seen = [];
      health = [];
      below_threshold = false;
    })).0

unfoldable pub add_endpoints : List String → Client → Client × ℕ
add_endpoints urls c = register_all discovered urls c

abbrev pub is_live : Option EndpointHealth → Bool
is_live none = false
is_live (some h) = not (is_unhealthy h.state)

unfoldable pub healthy_among : Map String EndpointHealth → List String → List String
healthy_among health [] = []
healthy_among health (ep ∷ eps) =
    let rest = healthy_among health eps in if is_live (lookup ep health) then ep ∷ rest else rest

unfoldable pub get_endpoints : Client → List String
get_endpoints c = c.endpoints

unfoldable pub get_healthy_endpoints : Client → List String
get_healthy_endpoints c = healthy_among c.health c.endpoints

abbrev pub status_of : String → Option EndpointHealth → List EndpointStatus
status_of ep none = []
status_of ep (some h) =
    record {
      url = ep;
      source_label = source_label_of h.source;
      is_healthy = not (is_unhealthy h.state);
    }
    ∷ []

unfoldable pub statuses_among : Map String EndpointHealth → List String → List EndpointStatus
statuses_among health [] = []
statuses_among health (ep ∷ eps) = status_of ep (lookup ep health) ++ statuses_among health eps

unfoldable pub get_endpoint_statuses : Client → List EndpointStatus
get_endpoint_statuses c = statuses_among c.health c.endpoints
