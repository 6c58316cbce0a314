-- ===== src/Crash.antt =====
-- chaos/crash.go and scenarios/scenario.go: nodes of one process that are stopped and made anew. The
-- observations and the clock are left out, and so are the waits of the scenarios.
pub mod Restarts
pub mod Consistent
mod Tests
use raftly.Common.{
  ℕ, List, [], ◌∷◌, ◌++◌, Option, none, some, Bool, true, false, not, Bytes, ◌==◌, str_eq,
  if◌then◌else◌, ◌>>=◌,
}
use raftly.Config.{PeerConfig, Config, default_config}
use raftly.Node.{Node, Env}
use raftly.Lifecycle.{start, stop, status, new_raft_node}
use raftly.Wal.File.{Call}
use raftly.Proxy.{NetworkProxy, action_drop, new_network_proxy}
use raftly.Chaos.{ChaosInjector, no_params, inject, heal, new_chaos_injector}
use raftly.Cluster.{Registry, find_node, set_node}

-- An injector with its nodes.
pub record Harness : Type 0 where
  pub injector : ChaosInjector
  pub nodes : Registry

-- "crash-from-", "crash-to-"
abbrev pub crash_from : Bytes
crash_from = 99 ∷ 114 ∷ 97 ∷ 115 ∷ 104 ∷ 45 ∷ 102 ∷ 114 ∷ 111 ∷ 109 ∷ 45 ∷ []

abbrev pub crash_to : Bytes
crash_to = 99 ∷ 114 ∷ 97 ∷ 115 ∷ 104 ∷ 45 ∷ 116 ∷ 111 ∷ 45 ∷ []

-- With the IDs of the rules.
unfoldable pub crash_node : Bytes → Harness → Harness × List Bytes
crash_node id h = elim (find_node id h.nodes) [
  | none ↦ (h, [])
  | some n ↦
      let (c, ids) = inject crash_from crash_to action_drop no_params id h.injector in
      (record { injector = c; nodes = set_node id (stop n) h.nodes }, ids)
]

-- `none` is no factory; a factory's `none` is its error.
unfoldable pub restart_node : Option (Bytes → Option Node) → Env → Bytes → Harness → Harness
restart_node none env id h = h
restart_node (some factory) env id h =
    let healed = record h { injector = heal h.injector } in
    elim (factory id) [
      | none ↦ healed
      | some n ↦ record healed { nodes = set_node id (start env n) h.nodes }
    ]

abbrev pub other_peers : Bytes → List Bytes → List PeerConfig
other_peers id [] = []
other_peers id (p ∷ ps) =
    let rest = other_peers id ps in
    if not (str_eq p id) then record { id = p; address = [] } ∷ rest else rest

-- The configuration of a node of the cluster; `filepath.Join` of a clean directory.
unfoldable pub node_config : Bytes → List Bytes → Bytes → Config
node_config data_dir node_ids id = record (default_config id) {
  data_dir = data_dir ++ (47 ∷ id);
  peers = other_peers id node_ids;
}

-- What the file system has in a node's directory: its log's path, the file, and its later calls.
abbrev pub Disk : Type 0
Disk = Bytes → Bytes × Bytes × List Call

unfoldable pub node_factory : Bytes → List Bytes → Disk → Bytes → Option Node
node_factory data_dir node_ids disk id =
    let (path, file, calls) = disk id in
    new_raft_node (node_config data_dir node_ids id) path file calls

abbrev pub new_nodes : (Bytes → Option Node) → List Bytes → Option Registry
new_nodes make [] = some []
new_nodes make (id ∷ ids) = do n ← make id; nodes ← new_nodes make ids; some ((id, n) ∷ nodes)

-- `NewCluster`, whose nodes all have one proxy.
unfoldable pub new_cluster : Bytes → List Bytes → Disk → Option Harness
new_cluster data_dir node_ids disk = do
  nodes ← new_nodes (node_factory data_dir node_ids disk) node_ids
  some (record { injector = new_chaos_injector new_network_proxy; nodes = nodes })

abbrev pub start_all : Env → Registry → Registry
start_all env [] = []
start_all env (p ∷ ps) = (p.0, start env p.1) ∷ start_all env ps

abbrev pub stop_all : Registry → Registry
stop_all [] = []
stop_all (p ∷ ps) = (p.0, stop p.1) ∷ stop_all ps

-- The loop of `NodesConsistent` once it has a first index.
abbrev pub all_at : ℕ → Registry → Bool
all_at first [] = true
all_at first (p ∷ ps) =
    let rest = all_at first ps in if not ((status p.1).commit_index == first) then false else rest

unfoldable pub nodes_consistent : Registry → Bool
nodes_consistent [] = true
nodes_consistent (p ∷ ps) = all_at (status p.1).commit_index ps
