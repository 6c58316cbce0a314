-- ===== src/Grpc/Tests.antt =====
-- transport/grpc.go: the theorems about calls and conversions at small inputs.
use raftly.Log.{LogEntry}
use raftly.Common.{◌^◌, ◌-◌, List, ◌≡◌, refl, [], ◌∷◌, Bytes}
use raftly.Sample.{n1, n2, env, node, entry_at}
use raftly.Sample
use raftly.Proxy.{new_network_proxy}
use raftly.Cluster
use raftly.Cluster.{Registry, Surroundings}
use raftly.Grpc.{GrpcTransport, new_grpc_transport}

abbrev surroundings : Surroundings
surroundings = record { env = env; roll = record { jitter = 0; loss = 0 }; remaining = 100_000_000 }

-- ":2"
abbrev address : Bytes
address = 58 ∷ 50 ∷ []

abbrev transport : GrpcTransport
transport = record {
  node_id = n1;
  address = 58 ∷ 49 ∷ [];
  peers = (n2, address) ∷ [];
  proxy = record { rules = [] };
  clients = [];
}

transport_is_new :
    transport ≡ new_grpc_transport n1 (58 ∷ 49 ∷ []) ((n2, address) ∷ []) new_network_proxy
unfolding new_grpc_transport new_network_proxy
transport_is_new = refl

abbrev servers : Registry
servers = (address, record node { id = n2 }) ∷ []

abbrev registry : Registry
registry = (n2, record node { id = n2 }) ∷ []

-- A type of an entry that is negative, and one that no `int32` holds.
abbrev odd_entries : List LogEntry
odd_entries =
    record (entry_at 1 1) { entry_type = 2 ^ 64 - 1 }
    ∷ record (entry_at 2 1) { entry_type = 2 ^ 31 }
    ∷ []
