-- ===== src/Cluster.antt =====
-- src/cluster.rs: the identity of a node, its peers, and the replication of administrator tokens.
pub mod Confirmation
use update_delivery_system.Prelude.{
  ℕ, String, Bool, true, false, not, Option, none, some, List, [], ◌∷◌, length, ◌==◌, if◌then◌else◌,
}
use update_delivery_system.Prelude.Text.{◌<>◌, trim, trim_end_matches}
use update_delivery_system.Prelude.BTreeMap.{keys}
use update_delivery_system.Errors.{Result, ok, err, ◌>>=◌, ◌>>◌}
use update_delivery_system.Auth.{AdminTokenRecord}
use update_delivery_system.Config.{fleet, single_node, ServerMode, FleetApiConfig, ServerConfig}
use update_delivery_system.Config.Validation.{is_fleet}

-- The set of peers is a map to the unit type.
pub record ClusterState : Type 0 where
  pub node_id : String
  pub enabled : Bool
  pub peers : List (String × Unit {0})
  pub cluster_token : Option String

-- The arguments are the file, if it exists, the outcomes of the creation of its directory and of its
-- write, and a fresh identifier.
unfoldable pub load_or_create_node_id :
    Option (Result String) → Result (Unit {0}) → Result (Unit {0}) → String → Result String
load_or_create_node_id (some text) directory write fresh = text >>= λ t. ok (trim t)
load_or_create_node_id none directory write fresh = directory >> write >> ok fresh

-- `ClusterState::new` with the outcome of `load_or_create_node_id`.
unfoldable pub new_cluster : ServerConfig → Result String → Result ClusterState
new_cluster c loaded = loaded >>= λ node_id. ok (record {
  node_id = node_id;
  enabled = is_fleet c.mode;
  peers = [];
  cluster_token = c.cluster_token;
})

-- The event itself is only logged.
unfoldable pub replicate_event : ClusterState → Bool
replicate_event cluster = if not cluster.enabled then false else not (length cluster.peers == 0)

-- What a peer answers to the records sent to an address with a credential: `true` is a status of
-- success, `false` any other status or a failed request.
abbrev pub Post : Type 0
Post = String → String → List AdminTokenRecord → Bool

abbrev pub tokens_url : String → String
tokens_url peer = trim_end_matches b'/' peer <> "/fleet/v1/auth/admin-tokens"

-- The loop over the peers.
unfoldable pub post_all : Post → String → List AdminTokenRecord → List String → Bool
post_all post token records [] = true
post_all post token records (peer ∷ peers) =
    if post (tokens_url peer) token records then post_all post token records peers else false

abbrev pub post_snapshot : Post → List AdminTokenRecord → List String → Option String → Bool
post_snapshot post records peers none = false
post_snapshot post records peers (some token) = post_all post token records peers

unfoldable pub replicate_auth_snapshot : Post → List AdminTokenRecord → ClusterState → Bool
replicate_auth_snapshot post records cluster =
    if not cluster.enabled
    then true
    else post_snapshot post records (keys cluster.peers) cluster.cluster_token

abbrev pub presence_of : ClusterState → Option FleetApiConfig → Option String
presence_of cluster none = none
presence_of cluster (some api) = some ("uds:" <> cluster.node_id <> ":" <> api.fleet_base_url)

-- A configuration without a fleet interface panics, which is no text.
unfoldable pub presence_message : ServerConfig → ClusterState → Option String
presence_message c cluster = presence_of cluster c.fleet_api
