-- ===== src/Grpc/Equivalent.antt =====
-- transport/grpc.go against transport/inmem.go: the same calls have the same effects.
use raftly.Common.{◌<◌, ◌≡◌, ◌⊎◌, Option, none, some, Bytes}
use raftly.Node.{Node}
use raftly.Cluster
use raftly.Cluster.{Registry, find_node, Surroundings}
use raftly.Grpc.{GrpcTransport, address_of, Called}

-- The transport knows the peer's address, the node of the peer serves there, and the context has
-- not ended yet.
pub record Mirrors (s : Surroundings) (peer_id address : Bytes) (servers r : Registry)
    (t : GrpcTransport) : Type 0 where
  pub known : address_of peer_id t.peers ≡ some address
  pub connected :
      (address_of peer_id t.clients ≡ none) ⊎ (address_of peer_id t.clients ≡ some address)
  pub same : find_node address servers ≡ find_node peer_id r
  pub live : 0 < s.remaining

-- One call over each transport: the same response or an error on both, and the same node after it.
pub record SameCall {A : Type 0} (peer_id address : Bytes) (called : Called A)
    (direct : Registry × Option A) : Type 0 where
  pub response : called.2 ≡ direct.1
  pub node : find_node address called.1 ≡ find_node peer_id direct.0

-- The same for calls whose handler may panic.
unfoldable pub SameOutcome :
    {A : Type 0} → Bytes → Bytes → Option (Called A) → Option (Registry × Option A) → Type 0
SameOutcome peer_id address none none = Unit {0}
SameOutcome peer_id address none (some direct) = ⊥
SameOutcome peer_id address (some called) none = ⊥
SameOutcome peer_id address (some called) (some direct) = SameCall peer_id address called direct
