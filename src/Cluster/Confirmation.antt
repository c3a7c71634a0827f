-- ===== src/Cluster/Confirmation.antt =====
-- When a snapshot of src/cluster.rs counts as confirmed by the fleet.
use update_delivery_system.Prelude.{
  ◌≡◌, refl, ◌⊎◌, inl, inr, String, Bool, true, false, not, Option, none, some, List, [], ◌∷◌, All,
  arith, if◌then◌else◌,
}
use update_delivery_system.Prelude.BTreeMap.{keys}
use update_delivery_system.Auth.{AdminTokenRecord}
use update_delivery_system.Cluster.{
  ClusterState, Post, tokens_url, post_all, post_snapshot, replicate_auth_snapshot,
}

-- A single node, or each peer has accepted the records under the credential of the fleet.
abbrev pub IsConfirmed : Post → List AdminTokenRecord → ClusterState → Type 0
IsConfirmed post records cluster =
    (cluster.enabled ≡ false)
    ⊎ ((token : String) × (cluster.cluster_token ≡ some token)
        × All (λ peer. post (tokens_url peer) token records ≡ true) (keys cluster.peers))

post_all-All :
    (post : Post) (token : String) (records : List AdminTokenRecord) (peers : List String)
    → post_all post token records peers ≡ true
    → All (λ peer. post (tokens_url peer) token records ≡ true) peers
unfolding post_all
post_all-All post token records [] h = tt
post_all-All post token records (peer ∷ peers) h =
    (ground arith, post_all-All post token records peers (ground arith))

pub replicate_auth_snapshot-IsConfirmed :
    (post : Post) (records : List AdminTokenRecord) (cluster : ClusterState)
    → replicate_auth_snapshot post records cluster ≡ true
    → IsConfirmed post records cluster
unfolding replicate_auth_snapshot
replicate_auth_snapshot-IsConfirmed post records cluster h =
    go cluster.enabled refl cluster.cluster_token refl h
  where
    go :
        (t : Bool)
        → cluster.enabled ≡ t
        → (o : Option String) → cluster.cluster_token ≡ o
        → (if not t then true else post_snapshot post records (keys cluster.peers) o) ≡ true
        → IsConfirmed post records cluster
    go false e o f g = inl e
    go true e none f g = cc
    go true e (some token) f g = inr (token, f, post_all-All post token records _ g)
