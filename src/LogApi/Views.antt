-- ===== src/LogApi/Views.antt =====
-- server/log.go: what the two endpoints show of the log.
use raftly.Common.{
  suc, ◌-◌, ◌^◌, ◌≤◌, ◌<◌, ◌≡◌, refl, ◌∙◌, ap, List, [], ◌∷◌, map, drop, length, min, Option, none,
  some, true, false, Bytes, str_eq, str_eq_iff, if◌then◌else◌, Bool-cases, inl, inr, arith,
}
use raftly.Log.{last_index}
use raftly.Log.Shape.{IsWellFormed}
use raftly.Node.{Node}
use raftly.Lifecycle.{status, log_snapshot}
use raftly.Lifecycle.Snapshot.{log_snapshot-drop}
use raftly.Http.{Delivery, returned, http_address, sort_strings, ids_of}
use raftly.Http.Calls.{is_listed, is_listed-sort_strings, is_listed-ids_of}
use raftly.Kv.{Codec}
use raftly.LogApi.{
  parse_limit, itoa, entry_view, NodeLogView, local_view, handle_log, LogApi, fetch_peer_log,
  log_of, handle_cluster_log,
}
use raftly.LogApi.Limit.{parse_limit_bounds, limit_round_trip}

length-map : {A B : Type 0} → (f : A → B) (xs : List A) → length (map f xs) ≡ length xs
length-map f [] = refl
length-map f (x ∷ xs) = ap suc (length-map f xs)

-- For a well-formed log and any query: the answer has at most 200 entries and is the end of the log,
-- the last entries in order, as many as the query's limit or all but the sentinel. Each entry is
-- shown with the flags that the node's commit index and applied index give it.
pub handle_log_lem :
    (c : Codec) (query : Bytes) (n : Node)
    → IsWellFormed n.log
    → length n.log.entries < 2 ^ 64
    → ((handle_log c query n).entries
        ≡ map (entry_view c n) (
            drop
              (length n.log.entries - min (parse_limit query 20) (last_index n.log))
              n.log.entries))
      × (length (handle_log c query n).entries ≡ min (parse_limit query 20) (last_index n.log))
      × (length (handle_log c query n).entries ≤ 200)
unfolding handle_log local_view
handle_log_lem c query n w small =
    let (tail, count) = log_snapshot-drop (parse_limit query 20) n w small in
    let (low, high) = parse_limit_bounds query 20 (omega arith) (omega arith) in
    let shown = length-map (entry_view c n) (log_snapshot (parse_limit query 20) n) ∙ count in
    (ap (map (entry_view c n)) tail, shown, ground arith)

-- What a cluster's answer has for a node.
abbrev pub result_of : Bytes → List (Bytes × Option NodeLogView) → Option (Option NodeLogView)
result_of p [] = none
result_of p (r ∷ rs) = let rest = result_of p rs in if str_eq r.0 p then some r.1 else rest

result_of-map :
    (f : Bytes → Option NodeLogView) (p : Bytes) (ids : List Bytes)
    → is_listed p ids ≡ true
    → result_of p (map (λ id. (id, f id)) ids) ≡ some (f p)
result_of-map f p [] listed = absurd (let q = listed in cc)
result_of-map f p (id ∷ ids) listed = elim (Bool-cases (str_eq id p)) [
  | inl here ↦ rw here (ap (λ t. some (f t)) ((str_eq_iff id p).0 here))
  | inr other ↦ rw other (result_of-map f p ids (let q = listed in ground arith))
]

-- The node is the one that handles the request, or serves at its address and its responses return.
pub data Shows (net : Bytes → Delivery) (servers : Bytes → Option Node) (l : LogApi) (p : Bytes)
    (n : Node) : Type 0 where
  itself :
      (a : Bytes)
      → http_address p l.http_peers ≡ some a
      → str_eq p (status l.node).id ≡ true
      → l.node ≡ n
      → Shows net servers l p n
  remote :
      (a : Bytes)
      → http_address p l.http_peers ≡ some a
      → str_eq p (status l.node).id ≡ false
      → servers a ≡ some n
      → net a ≡ returned
      → Shows net servers l p n

-- The answer for the cluster has, for each node that answers, what that node itself answers to the
-- same query.
pub cluster_log_is_local :
    (c : Codec) (query : Bytes) (net : Bytes → Delivery) (servers : Bytes → Option Node)
    (l : LogApi) (p : Bytes) (n : Node)
    → Shows net servers l p n
    → result_of p (handle_cluster_log c query net servers l) ≡ some (some (handle_log c query n))
unfolding handle_cluster_log handle_log fetch_peer_log
cluster_log_is_local c query net servers l p n (itself a known own is_n) =
    let listed =
      is_listed-sort_strings p (ids_of l.http_peers) ∙ is_listed-ids_of p a l.http_peers known in
    let here : log_of c net servers l (parse_limit query 20) p
        ≡ some (local_view c (parse_limit query 20) l.node) =
      rw own refl in
    result_of-map (log_of c net servers l (parse_limit query 20)) p
      (sort_strings (ids_of l.http_peers)) listed
    ∙ ap some (here ∙ ap (λ m. some (local_view c (parse_limit query 20) m)) is_n)
cluster_log_is_local c query net servers l p n (remote a known other serves answers) =
    let listed =
      is_listed-sort_strings p (ids_of l.http_peers) ∙ is_listed-ids_of p a l.http_peers known in
    let (low, high) = parse_limit_bounds query 20 (omega arith) (omega arith) in
    let limit = parse_limit query 20 in
    let fetched : fetch_peer_log c net servers l.http_peers p limit
        ≡ some (local_view c (parse_limit (itoa limit) 20) n) =
      rw (fetch_peer_log, known, serves, answers) refl in
    let there : log_of c net servers l limit p
        ≡ some (local_view c (parse_limit (itoa limit) 20) n) =
      rw other fetched in
    result_of-map (log_of c net servers l limit) p (sort_strings (ids_of l.http_peers)) listed
    ∙ ap some (there ∙ ap (λ k. some (local_view c k n)) (limit_round_trip limit 20 low high))
