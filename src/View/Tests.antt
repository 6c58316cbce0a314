-- ===== src/View/Tests.antt =====
-- server/api.go: a snapshot of two leaders, and a node that goes down.
use raftly.Common.{◌≡◌, refl, map, [], ◌∷◌, Option, some, true, false, Bytes, str_eq}
use raftly.Config.{leader}
use raftly.Node.{Node}
use raftly.Lifecycle.{status}
use raftly.Sample.{n1, n2, node}
use raftly.Http.{Delivery, returned}
use raftly.View.{
  NodeView, ClusterView, handle_status, down, fetch_node_status, fetch_cluster_snapshot,
  handle_events, view_of,
}
use raftly.View.Summary.{IsSummary, snapshot_lem}
use raftly.View.Events.{Known, follow_all, events_tell_reachable}

-- ":1" and ":2"
abbrev a1 : Bytes
a1 = 58 ∷ 49 ∷ []

abbrev a2 : Bytes
a2 = 58 ∷ 50 ∷ []

-- n1 leads in term 3, and n2 has led since term 1 and does not know it.
abbrev new_leader : Node
new_leader = record node { state = leader; current_term = 3 }

abbrev old_leader : Node
old_leader = record node { id = n2; state = leader }

abbrev net : Bytes → Delivery
net a = returned

abbrev servers : Bytes → Option Node
servers a = some old_leader

shows_old_leader :
    (fetch_cluster_snapshot net servers new_leader ((n1, a1) ∷ (n2, a2) ∷ [])).leader_id ≡ n2
unfolding fetch_cluster_snapshot handle_status fetch_node_status str_eq status
shows_old_leader = refl

snapshot_lem_example :
    IsSummary
      (map (view_of net servers new_leader ((n2, a2) ∷ (n1, a1) ∷ [])) (n2 ∷ n1 ∷ []))
      (fetch_cluster_snapshot net servers new_leader ((n2, a2) ∷ (n1, a1) ∷ []))
snapshot_lem_example = snapshot_lem net servers new_leader ((n2, a2) ∷ (n1, a1) ∷ [])

abbrev up_view : NodeView
up_view = record (down n2) { reachable = true }

abbrev up : ClusterView
up = record { nodes = up_view ∷ []; leader_id = []; term = 0 }

abbrev gone : ClusterView
gone = record { nodes = down n2 ∷ []; leader_id = []; term = 0 }

abbrev all_up : Known
all_up k = true

events_tell_reachable_example :
    follow_all (handle_events up (gone ∷ up ∷ gone ∷ [])) all_up n2 ≡ false
unfolding str_eq
events_tell_reachable_example =
    events_tell_reachable n2 all_up up (gone ∷ up ∷ gone ∷ []) ((tt, tt), (up_view, refl)) refl
      (
        ((tt, tt), (down n2, refl)),
        (((tt, tt), (up_view, refl)), (((tt, tt), (down n2, refl)), tt)),
      )
