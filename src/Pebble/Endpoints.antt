-- ===== src/Pebble/Endpoints.antt =====
-- store/pebble/pebble.go, the endpoint registry and the peers' policies, with the checks of store/store.go.
-- A stored row may be unreadable (`none`).
use arcade.Prelude.{
  ℕ, ◌-◌, ◌^◌, String, Bool, false, not, ◌&&◌, List, [], ◌∷◌, Option, none, some, ◌==◌, nat_eq,
  string_eq, if◌then◌else◌, leb,
}
use arcade.Prelude.Map.{Map, lookup, insert}
use arcade.Pebble.Ops.{Io}

pub record EndpointPolicy : Type 0 where
  pub mining_fee_satoshis : ℕ
  pub mining_fee_bytes : ℕ
  pub max_tx_size_policy : ℕ
  pub max_script_size_policy : ℕ
  pub max_tx_sigops_counts_policy : ℕ

pub record DatahubEndpoint : Type 0 where
  pub url : String
  pub network : String
  pub source : String
  pub last_seen : ℕ
  pub policy : Option EndpointPolicy

pub record PeerPolicy : Type 0 where
  pub peer_id : String
  pub network : String
  pub mining_fee_satoshis : ℕ
  pub mining_fee_bytes : ℕ
  pub max_tx_size_policy : ℕ
  pub max_script_size_policy : ℕ
  pub last_seen : ℕ

pub data Failure : Type 0 where
  fine : Failure
  cancelled_call : Failure
  empty_url : Failure
  invalid_policy : Failure
  not_written : Failure

-- The largest signed 64-bit value.
abbrev pub max_storable_policy_value : ℕ
max_storable_policy_value = 2 ^ 63 - 1

abbrev pub storable : ℕ → Bool
storable n = leb n max_storable_policy_value

unfoldable pub validate : EndpointPolicy → Bool
validate p =
    storable p.mining_fee_satoshis
    && storable p.mining_fee_bytes
    && storable p.max_tx_size_policy
    && storable p.max_script_size_policy
    && storable p.max_tx_sigops_counts_policy

unfoldable pub validate_peer : PeerPolicy → Bool
validate_peer p =
    not (p.peer_id == "")
    && not (p.mining_fee_bytes == 0)
    && storable p.mining_fee_satoshis
    && storable p.mining_fee_bytes
    && storable p.max_tx_size_policy
    && storable p.max_script_size_policy

abbrev pub policy_of : Option (Option DatahubEndpoint) → Option EndpointPolicy
policy_of none = none
policy_of (some none) = none
policy_of (some (some row)) = row.policy

-- The policy that is stored for a URL; a row that cannot be read has none.
unfoldable pub existing_endpoint_policy :
    Io → String → Map String (Option DatahubEndpoint) → Option EndpointPolicy
existing_endpoint_policy io url s = if io.read_fails then none else policy_of (lookup url s)

-- The policy that a write stores: its own, or the one that is there.
abbrev pub carried : Option EndpointPolicy → Option EndpointPolicy → Option EndpointPolicy
carried (some p) existing = some p
carried none existing = existing

abbrev pub is_invalid : Option EndpointPolicy → Bool
is_invalid none = false
is_invalid (some p) = not (validate p)

unfoldable pub upsert_datahub_endpoint :
    Io
    → DatahubEndpoint
    → Map String (Option DatahubEndpoint)
    → Map String (Option DatahubEndpoint) × Failure
upsert_datahub_endpoint io ep s =
    if io.cancelled
    then (s, cancelled_call)
    else if ep.url == ""
    then (s, empty_url)
    else if is_invalid ep.policy
    then (s, invalid_policy)
    else if io.write_fails
    then (s, not_written)
    else (
      insert ep.url
          (some (record ep { policy = carried ep.policy (existing_endpoint_policy io ep.url s) }))
          s,
      fine,
    )

unfoldable pub list_datahub_endpoints :
    String → Map String (Option DatahubEndpoint) → List DatahubEndpoint
list_datahub_endpoints network [] = []
list_datahub_endpoints network ((url, none) ∷ rest) = list_datahub_endpoints network rest
list_datahub_endpoints network ((url, some row) ∷ rest) =
    let others = list_datahub_endpoints network rest in
    if row.network == network then row ∷ others else others

unfoldable pub upsert_peer_policy :
    Io → PeerPolicy → Map String (Option PeerPolicy) → Map String (Option PeerPolicy) × Failure
upsert_peer_policy io pp s =
    if io.cancelled
    then (s, cancelled_call)
    else if not (validate_peer pp)
    then (s, invalid_policy)
    else (if io.write_fails then (s, not_written) else (insert pp.peer_id (some pp) s, fine))

unfoldable pub list_peer_policies : String → Map String (Option PeerPolicy) → List PeerPolicy
list_peer_policies network [] = []
list_peer_policies network ((id, none) ∷ rest) = list_peer_policies network rest
list_peer_policies network ((id, some row) ∷ rest) =
    let others = list_peer_policies network rest in
    if row.network == network then row ∷ others else others
