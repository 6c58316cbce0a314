-- ===== src/Kv/Tests.antt =====
-- server/api.go: the theorems about the store at small inputs, with a codec that is not JSON's.
use raftly.Common.{
  ℕ, ◌≡◌, ◌↔◌, ◌⊎◌, refl, [], ◌∷◌, ◌++◌, Option, none, some, true, Bytes, length, take, drop,
  take-append, drop-append, arith,
}
use raftly.Config.{leader}
use raftly.Log.{LogEntry, sentinel}
use raftly.Message.{AppendEntriesRequest, AppendEntriesResponse}
use raftly.Node.{Node, quorum}
use raftly.Sample.{runs, env, node, entry_at, n1, n2}
use raftly.Leader.{
  replicate_response, maybe_commit, quorum_match_index, sort, insert_sorted, commit_at,
}
use raftly.Proposals.{propose, unapplied, deliver_all}
use raftly.Machine.{here, next, peer_answered}
use raftly.Kv.{
  Command, Codec, put_op, KvStore, Request, http_get, key_value, Upstream, relayed, proxy_to_leader,
  awaiting, key_of, apply_loop, handle_put, handle_get, proposing, http_put,
}
use raftly.Kv.Text.{CodecLaws}
use raftly.Kv.Spec.{commands, replay, writes}
use raftly.Kv.Refines.{view, plus, apply_loop_refines}
use raftly.Kv.Handlers.{IsServed, IsRelayed, handle_get_iff}
use raftly.Kv.ReadBack.{entries_to, put_is_read_back}
use raftly.Kv.Stale.{late_delivery_reverts_value}

-- The lengths of the first two fields, and the three fields.
abbrev marshal : Command → Bytes
marshal cmd = length cmd.op ∷ length cmd.key ∷ (cmd.op ++ (cmd.key ++ cmd.value))

abbrev unmarshal : Bytes → Option Command
unmarshal [] = none
unmarshal (a ∷ []) = none
unmarshal (a ∷ b ∷ s) =
    some (record { op = take a s; key = take b (drop a s); value = drop b (drop a s) })

abbrev body_value : Bytes → Option Bytes
body_value [] = none
body_value (b ∷ s) = some (b ∷ s)

abbrev codec : Codec
codec = record {
  marshal = marshal;
  unmarshal = unmarshal;
  body_value = body_value;
  unread = λ s. [];
}

codec-CodecLaws : CodecLaws codec
codec-CodecLaws = record {
  unmarshal-marshal = λ cmd _ _ _.
      rw
        (
          take-append cmd.op (cmd.key ++ cmd.value),
          drop-append cmd.op (cmd.key ++ cmd.value),
          take-append cmd.key cmd.value,
          drop-append cmd.key cmd.value,
        )
        refl;
}

abbrev store : KvStore
store = record { contents = []; http_peers = []; log_entries_total = some 0 }

abbrev leading : Node
leading = record node { state = leader }

-- PUT /keys/x with the value "5"
abbrev request : Request
request = record {
  method = http_put;
  path = 47 ∷ 107 ∷ 101 ∷ 121 ∷ 115 ∷ 47 ∷ 120 ∷ [];
  body = 53 ∷ [];
}

-- The leader at any address has "5" at the key.
abbrev up : Upstream
up address req = relayed (key_value (120 ∷ []) (53 ∷ []))

abbrev accepted : Node
accepted = (handle_put up codec 5 store request leading leading).0

puts : handle_put up codec 5 store request leading leading ≡ (accepted, awaiting 3 1)
unfolding runs handle_put proposing propose key_of
puts = refl

abbrev sent : AppendEntriesRequest
sent = record {
  term = 1;
  leader_id = n1;
  prev_log_index = 2;
  prev_log_term = 1;
  entries = entry_at 3 1 ∷ [];
  leader_commit = 1;
}

abbrev acknowledges : AppendEntriesResponse
acknowledges = record { term = 1; success = true; conflict_term = 0; conflict_index = 0 }

abbrev committed : Node
committed = replicate_response env n2 sent acknowledges accepted

put_is_read_back_example :
    handle_get up
      (apply_loop codec (entries_to 3 committed.log) store)
      (record request { method = http_get })
      committed
    ≡ key_value (key_of request) (53 ∷ [])
unfolding runs handle_put proposing propose key_of replicate_response maybe_commit
    quorum_match_index sort insert_sorted commit_at quorum
put_is_read_back_example =
    put_is_read_back up codec 5 store store request (record request { method = http_get }) leading
      leading {m = accepted} {committed = committed} {final = committed} {index = 3} {term = 1}
      {value = 53 ∷ []} codec-CodecLaws refl refl refl (omega arith) (omega arith) puts
      (next here (peer_answered env n2 sent acknowledges)) refl (omega arith) here refl refl

abbrev put_x : ℕ → ℕ → LogEntry
put_x index value = record (entry_at index 1) {
  payload = marshal (record { op = put_op; key = 120 ∷ []; value = value ∷ [] });
}

apply_loop_refines_example :
    (view (apply_loop codec (put_x 1 53 ∷ put_x 2 54 ∷ []) store)
      ≡ replay (commands codec (put_x 1 53 ∷ put_x 2 54 ∷ [])) (view store))
    × ((apply_loop codec (put_x 1 53 ∷ put_x 2 54 ∷ []) store).log_entries_total
        ≡ plus (some 0) (writes (commands codec (put_x 1 53 ∷ put_x 2 54 ∷ []))))
apply_loop_refines_example = apply_loop_refines codec (put_x 1 53 ∷ put_x 2 54 ∷ []) store

-- A node that knows n2 as the leader, and its address.
abbrev following : Node
following = record node { leader_id = n2 }

abbrev knows_n2 : KvStore
knows_n2 = record store { http_peers = (n2, 58 ∷ 50 ∷ []) ∷ [] }

handle_get_iff_example :
    (handle_get up knows_n2 request following ≡ key_value (120 ∷ []) (53 ∷ [])) ↔ (
      (IsServed request following
        × (120 ∷ [] ≡ key_of request)
        × (view knows_n2 (key_of request) ≡ some (53 ∷ [])))
      ⊎ IsRelayed up knows_n2 request following (key_value (120 ∷ []) (53 ∷ [])))
handle_get_iff_example = handle_get_iff up knows_n2 request following (120 ∷ []) (53 ∷ [])

answers_for_leader : handle_get up knows_n2 request following ≡ key_value (120 ∷ []) (53 ∷ [])
unfolding runs handle_get proxy_to_leader
answers_for_leader = refl

-- A node with the first write committed, and the same node after it has applied a second.
abbrev early : Node
early = record node {
  log = record {
    entries = sentinel ∷ put_x 1 53 ∷ put_x 2 54 ∷ [];
    commit_index = 1;
    last_applied = 0;
  };
}

abbrev late : Node
late = record early {
  log = record (early.log) { commit_index = 2; last_applied = 2 };
  commit_ch = put_x 1 53 ∷ put_x 2 54 ∷ [];
}

late_delivery_reverts_value_example :
    view (apply_loop codec (deliver_all (unapplied early) late).commit_ch store) (120 ∷ [])
    ≡ some (53 ∷ [])
unfolding runs
late_delivery_reverts_value_example =
    late_delivery_reverts_value codec store early late {e = put_x 1 53} (120 ∷ []) (53 ∷ [])
      (omega arith) (omega arith) (omega arith) (omega arith) refl refl
