-- ===== src/Cluster/Tests.antt =====
-- transport/inmem.go: the theorems about an isolated node at small inputs.
use raftly.Common.{◌+◌, ◌≡◌, refl, [], ◌∷◌, u64}
use raftly.Sample.{runs, n1, n2, env, node, entries_message}
use raftly.Sample
use raftly.Node.{become_candidate, become_follower}
use raftly.Chaos.{ChaosInjector, partition_node}
use raftly.Campaign.{election}
use raftly.Cluster.{Registry, Surroundings}
use raftly.Cluster.Isolated.{asked, isolated_node_loses}

abbrev surroundings : Surroundings
surroundings = record { env = env; roll = record { jitter = 0; loss = 0 }; remaining = 100_000_000 }

abbrev injector : ChaosInjector
injector = record { proxy = record { rules = [] }; rule_counter = 0 }

abbrev cluster : Registry
cluster = (n1, node) ∷ (n2, record node { id = n2 }) ∷ []

isolated_node_loses_example :
    election
      (record {
        start = env;
        between = λ m. m;
        arrivals =
            asked surroundings
              (partition_node n1 injector).0.proxy
              (Sample.vote_request n1 2)
              cluster
              node.peers;
        end = env;
      })
      node
    ≡ become_follower env (u64 (1 + 1)) [] (become_candidate env node)
isolated_node_loses_example =
    isolated_node_loses surroundings injector (Sample.vote_request n1 2) cluster env env node refl
      refl refl
