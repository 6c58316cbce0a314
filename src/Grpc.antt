-- ===== src/Grpc.antt =====
-- transport/grpc.go: messages as protocol buffers, and the calls that carry them. The servers of
-- the cluster stand under their addresses; gRPC itself is what runs the method of a server for a
-- call, or fails: a call on a context that has ended is an error, and so is one with a string that
-- is not UTF-8. Listening and shutting down are left out.
pub mod Convert
pub mod Equivalent
mod Tests
use raftly.Common.{
  ℕ, ◌+◌, ◌-◌, ◌%◌, ◌^◌, List, [], ◌∷◌, map, Option, none, some, Bool, true, false, not, Bytes, ltb,
  str_eq, if◌then◌else◌, ◌>>=◌, is_positive, u64,
}
use raftly.Utf8.{is_utf8}
use raftly.Log
use raftly.Log.{LogEntry}
use raftly.Message
use raftly.Message.{VoteRequest, VoteResponse, AppendEntriesRequest, AppendEntriesResponse}
use raftly.Node.{Node, Env}
use raftly.Election.{handle_request_vote, handle_pre_vote}
use raftly.Replication.{handle_append_entries}
use raftly.Proxy.{NetworkProxy, should_deliver}
use raftly.Cluster.{Registry, find_node, set_node, Surroundings}

-- The messages of the protocol. An entry's type is an `int32`, here by its 32 bits.
pub record PbVoteRequest : Type 0 where
  pub term : ℕ
  pub candidate_id : Bytes
  pub last_log_index : ℕ
  pub last_log_term : ℕ
  pub pre_vote : Bool

pub record PbVoteResponse : Type 0 where
  pub term : ℕ
  pub vote_granted : Bool

pub record PbLogEntry : Type 0 where
  pub index : ℕ
  pub term : ℕ
  pub entry_type : ℕ
  pub payload : Bytes

pub record PbAppendEntriesRequest : Type 0 where
  pub term : ℕ
  pub leader_id : Bytes
  pub prev_log_index : ℕ
  pub prev_log_term : ℕ
  pub entries : List PbLogEntry
  pub leader_commit : ℕ

pub record PbAppendEntriesResponse : Type 0 where
  pub term : ℕ
  pub success : Bool
  pub conflict_term : ℕ
  pub conflict_index : ℕ

-- `int32(x)` of an `int`, and `EntryType(v)` of an `int32`; both by the bits of two's complement.
abbrev pub to_int32 : ℕ → ℕ
to_int32 x = x % 2 ^ 32

abbrev pub of_int32 : ℕ → ℕ
of_int32 v = if ltb v (2 ^ 31) then v else v + (2 ^ 64 - 2 ^ 32)

abbrev pub to_pb_entry : LogEntry → PbLogEntry
to_pb_entry e = record {
  index = e.index;
  term = e.term;
  entry_type = to_int32 e.entry_type;
  payload = e.payload;
}

abbrev pub of_pb_entry : PbLogEntry → LogEntry
of_pb_entry e = record {
  index = e.index;
  term = e.term;
  entry_type = of_int32 e.entry_type;
  payload = e.payload;
}

unfoldable pub raft_to_pb_entries : List LogEntry → List PbLogEntry
raft_to_pb_entries es = map to_pb_entry es

unfoldable pub pb_to_raft_entries : List PbLogEntry → List LogEntry
pb_to_raft_entries es = map of_pb_entry es

abbrev pub to_pb_request : AppendEntriesRequest → PbAppendEntriesRequest
to_pb_request req = record {
  term = req.term;
  leader_id = req.leader_id;
  prev_log_index = req.prev_log_index;
  prev_log_term = req.prev_log_term;
  entries = raft_to_pb_entries req.entries;
  leader_commit = req.leader_commit;
}

abbrev pub of_pb_request : PbAppendEntriesRequest → AppendEntriesRequest
of_pb_request req = record {
  term = req.term;
  leader_id = req.leader_id;
  prev_log_index = req.prev_log_index;
  prev_log_term = req.prev_log_term;
  entries = pb_to_raft_entries req.entries;
  leader_commit = req.leader_commit;
}

abbrev pub to_pb_response : AppendEntriesResponse → PbAppendEntriesResponse
to_pb_response resp = record {
  term = resp.term;
  success = resp.success;
  conflict_term = resp.conflict_term;
  conflict_index = resp.conflict_index;
}

abbrev pub of_pb_response : PbAppendEntriesResponse → AppendEntriesResponse
of_pb_response resp = record {
  term = resp.term;
  success = resp.success;
  conflict_term = resp.conflict_term;
  conflict_index = resp.conflict_index;
}

abbrev pub to_pb_vote_request : VoteRequest → PbVoteRequest
to_pb_vote_request req = record {
  term = req.term;
  candidate_id = req.candidate_id;
  last_log_index = req.last_log_index;
  last_log_term = req.last_log_term;
  pre_vote = req.pre_vote;
}

abbrev pub of_pb_vote_request : PbVoteRequest → VoteRequest
of_pb_vote_request req = record {
  term = req.term;
  candidate_id = req.candidate_id;
  last_log_index = req.last_log_index;
  last_log_term = req.last_log_term;
  pre_vote = req.pre_vote;
}

abbrev pub to_pb_vote_response : VoteResponse → PbVoteResponse
to_pb_vote_response resp = record { term = resp.term; vote_granted = resp.vote_granted }

abbrev pub of_pb_vote_response : PbVoteResponse → VoteResponse
of_pb_vote_response resp = record { term = resp.term; vote_granted = resp.vote_granted }

-- The methods of the server.
unfoldable pub serve_request_vote : Env → PbVoteRequest → Node → Node × PbVoteResponse
serve_request_vote env req n =
    let (m, resp) = handle_request_vote env (of_pb_vote_request req) n in
    (m, to_pb_vote_response resp)

unfoldable pub serve_pre_vote : PbVoteRequest → Node → PbVoteResponse
serve_pre_vote req n = to_pb_vote_response (handle_pre_vote (of_pb_vote_request req) n)

unfoldable pub serve_append_entries :
    Env → PbAppendEntriesRequest → Node → Option (Node × PbAppendEntriesResponse)
serve_append_entries env req n = do
  (m, resp) ← handle_append_entries env (of_pb_request req) n
  some (m, to_pb_response resp)

pub record GrpcTransport : Type 0 where
  pub node_id : Bytes
  pub address : Bytes
  pub peers : List (Bytes × Bytes)  -- the address of a peer
  pub proxy : NetworkProxy
  pub clients : List (Bytes × Bytes)  -- the address that a peer's client is connected to

unfoldable pub new_grpc_transport :
    Bytes → Bytes → List (Bytes × Bytes) → NetworkProxy → GrpcTransport
new_grpc_transport node_id address peers proxy = record {
  node_id = node_id;
  address = address;
  peers = peers;
  proxy = proxy;
  clients = [];
}

abbrev pub address_of : Bytes → List (Bytes × Bytes) → Option Bytes
address_of id [] = none
address_of id (p ∷ ps) = let rest = address_of id ps in if str_eq p.0 id then some p.1 else rest

-- The client of a peer, made on first use; `dials` says whether `grpc.NewClient` has no error.
unfoldable pub get_client : Bool → Bytes → GrpcTransport → GrpcTransport × Option Bytes
get_client dials peer_id t = elim (address_of peer_id t.clients) [
  | some address ↦ (t, some address)
  | none ↦ elim (address_of peer_id t.peers) [
    | none ↦ (t, none)
    | some address ↦
        if dials
        then (record t { clients = (peer_id, address) ∷ t.clients }, some address)
        else (t, none)
  ]
]

-- What the three calls do first: the proxy, the sleep, the client. `none` is an error, also that of
-- a call that is made when the context has ended.
unfoldable pub reach : Surroundings → Bool → Bytes → GrpcTransport → GrpcTransport × Option Bytes
reach s dials peer_id t =
    let (deliver, delay) = should_deliver s.roll t.proxy t.node_id peer_id in
    let (t', client) = get_client dials peer_id t in
    let slept = if is_positive delay then delay else 0 in
    if not deliver then (t, none) else if ltb slept s.remaining then (t', client) else (t', none)

-- What a call leaves: the transport, the servers, and a response or an error.
abbrev pub Called : Type 0 → Type 0
Called A = GrpcTransport × Registry × Option A

unfoldable pub send_request_vote :
    Surroundings → Bool → Bytes → VoteRequest → Registry → GrpcTransport → Called VoteResponse
send_request_vote s dials peer_id req servers t =
    let (t', client) = reach s dials peer_id t in
    elim client [
      | none ↦ (t', servers, none)
      | some address ↦ elim (find_node address servers) [
        | none ↦ (t', servers, none)
        | some n ↦
            let (m, resp) = serve_request_vote s.env (to_pb_vote_request req) n in
            if is_utf8 req.candidate_id
            then (t', set_node address m servers, some (of_pb_vote_response resp))
            else (t', servers, none)
      ]
    ]

unfoldable pub send_pre_vote :
    Surroundings → Bool → Bytes → VoteRequest → Registry → GrpcTransport → Called VoteResponse
send_pre_vote s dials peer_id req servers t =
    let (t', client) = reach s dials peer_id t in
    elim client [
      | none ↦ (t', servers, none)
      | some address ↦ elim (find_node address servers) [
        | none ↦ (t', servers, none)
        | some n ↦
            let resp = serve_pre_vote (to_pb_vote_request req) n in
            if is_utf8 req.candidate_id
            then (t', servers, some (of_pb_vote_response resp))
            else (t', servers, none)
      ]
    ]

-- The outer `none` is a panic in the handler.
unfoldable pub send_append_entries :
    Surroundings
    → Bool
    → Bytes
    → AppendEntriesRequest
    → Registry
    → GrpcTransport
    → Option (Called AppendEntriesResponse)
send_append_entries s dials peer_id req servers t =
    let (t', client) = reach s dials peer_id t in
    elim client [
      | none ↦ some (t', servers, none)
      | some address ↦ elim (find_node address servers) [
        | none ↦ some (t', servers, none)
        | some n ↦
            if is_utf8 req.leader_id
            then (do
              (m, resp) ← serve_append_entries s.env (to_pb_request req) n
              some (t', set_node address m servers, some (of_pb_response resp)))
            else some (t', servers, none)
      ]
    ]
