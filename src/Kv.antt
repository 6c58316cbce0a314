-- ===== src/Kv.antt =====
-- server/api.go: `KVStore`, the state machine behind the log, and its HTTP handlers. JSON is the
-- library's: a codec that the definitions take. The text of an error response is left out, as are
-- the headers. What becomes of a request that goes on to the leader is the HTTP library's: the
-- handlers take a function for it.
pub mod Text
pub mod Spec
pub mod Refines
pub mod Handlers
pub mod Writes
pub mod ReadBack
pub mod Stale
mod Tests
use raftly.Common.{
  ℕ, suc, List, [], ◌∷◌, Option, none, some, Bool, true, false, not, Bytes, map, str_eq,
  if◌then◌else◌,
}
use raftly.Log.{LogEntry}
use raftly.Node.{Node, is_leader}
use raftly.Proposals.{
  ProposeResult, not_leader, wal_write_failed, wal_sync_failed, waiting, propose,
}

pub record Command : Type 0 where
  pub op : Bytes
  pub key : Bytes
  pub value : Bytes

-- `json.Marshal` and `json.Unmarshal` of a command, and the decoder of a body with a value.
pub record Codec : Type 0 where
  pub marshal : Command → Bytes
  pub unmarshal : Bytes → Option Command
  pub body_value : Bytes → Option Bytes
  pub unread : Bytes → Bytes  -- what is left of a body after that

-- "put", "delete", "/keys/"
abbrev pub put_op : Bytes
put_op = 112 ∷ 117 ∷ 116 ∷ []

abbrev pub delete_op : Bytes
delete_op = 100 ∷ 101 ∷ 108 ∷ 101 ∷ 116 ∷ 101 ∷ []

abbrev pub keys_path : Bytes
keys_path = 47 ∷ 107 ∷ 101 ∷ 121 ∷ 115 ∷ 47 ∷ []

-- A map from strings to strings.
abbrev pub Entries : Type 0
Entries = List (Bytes × Bytes)

abbrev pub lookup : Bytes → Entries → Option Bytes
lookup k [] = none
lookup k (p ∷ ps) = let rest = lookup k ps in if str_eq p.0 k then some p.1 else rest

abbrev pub delete : Bytes → Entries → Entries
delete k [] = []
delete k (p ∷ ps) = let rest = delete k ps in if str_eq p.0 k then rest else p ∷ rest

abbrev pub put : Bytes → Bytes → Entries → Entries
put k v ps = (k, v) ∷ delete k ps

pub record KvStore : Type 0 where
  pub contents : Entries  -- the field `data`
  pub http_peers : Entries
  pub log_entries_total : Option ℕ  -- the counter; `none` is nil metrics

unfoldable pub new_kv_store : Entries → Option ℕ → KvStore
new_kv_store http_peers metrics = record {
  contents = [];
  http_peers = http_peers;
  log_entries_total = metrics;
}

abbrev pub counted : Option ℕ → Option ℕ
counted none = none
counted (some n) = some (suc n)

unfoldable pub apply_command : Command → KvStore → KvStore
apply_command cmd kv =
    if str_eq cmd.op put_op
    then record kv {
      contents = put cmd.key cmd.value kv.contents;
      log_entries_total = counted kv.log_entries_total;
    }
    else if str_eq cmd.op delete_op
    then record kv {
      contents = delete cmd.key kv.contents;
      log_entries_total = counted kv.log_entries_total;
    }
    else kv

unfoldable pub apply : Codec → LogEntry → KvStore → KvStore
apply c e kv = elim (c.unmarshal e.payload) [ none ↦ kv | some cmd ↦ apply_command cmd kv ]

-- The loop, over what it receives.
unfoldable pub apply_loop : Codec → List LogEntry → KvStore → KvStore
apply_loop c [] kv = kv
apply_loop c (e ∷ es) kv = apply_loop c es (apply c e kv)

pub data Method : Type 0 where
  http_get http_put http_delete http_other : Method

pub record Request : Type 0 where
  pub method : Method
  pub path : Bytes
  pub body : Bytes

pub data Response : Type 0 where
  status : (code : ℕ) → Response
  key_value : (key value : Bytes) → Response

-- What becomes of a request to an address: it cannot be made, it has no response, or it has one.
pub data Relay : Type 0 where
  malformed unreachable : Relay
  relayed : Response → Relay

abbrev pub Upstream : Type 0
Upstream = Bytes → Request → Relay

-- A handler's end: a response, or the wait for the outcome of a proposal.
pub data Handling : Type 0 where
  answered : Response → Handling
  awaiting : (index term : ℕ) → Handling

-- `strings.TrimPrefix`
abbrev pub strip : Bytes → Bytes → Option Bytes
strip [] s = some s
strip (c ∷ p) [] = none
strip (c ∷ p) (d ∷ s) = let rest = strip p s in if str_eq (c ∷ []) (d ∷ []) then rest else none

unfoldable pub key_of : Request → Bytes
key_of req = elim (strip keys_path req.path) [ none ↦ req.path | some key ↦ key ]

-- The request goes on with what is left of its body.
unfoldable pub proxy_to_leader : Upstream → KvStore → Request → Node → Response
proxy_to_leader up kv req n =
    if str_eq n.leader_id [] then status 503 else elim (lookup n.leader_id kv.http_peers) [
      | none ↦ status 503
      | some address ↦ elim (up address req) [
        | malformed ↦ status 500
        | unreachable ↦ status 502
        | relayed r ↦ r
      ]
    ]

-- What becomes of an error of `Propose`, or of its wait.
unfoldable pub proposing : Upstream → KvStore → Request → Node × ProposeResult → Node × Handling
proposing up kv req (n, not_leader leader_id) = (n, answered (proxy_to_leader up kv req n))
proposing up kv req (n, wal_write_failed) = (n, answered (status 500))
proposing up kv req (n, wal_sync_failed) = (n, answered (status 500))
proposing up kv req (n, waiting index term) = (n, awaiting index term)

-- The response when the wait is over: with success, or because the node was stopped.
abbrev pub outcome : Bool → Response
outcome true = status 200
outcome false = status 500

-- `later` is the node when `Propose` takes the lock, some time after `IsLeader` had it.
unfoldable pub handle_put : Upstream → Codec → ℕ → KvStore → Request → Node → Node → Node × Handling
handle_put up c caller kv req n later =
    if not (is_leader n.state)
    then (later, answered (proxy_to_leader up kv req n))
    else if str_eq (key_of req) []
    then (later, answered (status 400))
    else elim (c.body_value req.body) [
      | none ↦ (later, answered (status 400))
      | some value ↦
          proposing up kv (record req { body = c.unread req.body })
            (propose (c.marshal (record { op = put_op; key = key_of req; value = value })) caller
              later)
    ]

unfoldable pub handle_delete :
    Upstream → Codec → ℕ → KvStore → Request → Node → Node → Node × Handling
handle_delete up c caller kv req n later =
    if not (is_leader n.state)
    then (later, answered (proxy_to_leader up kv req n))
    else if str_eq (key_of req) []
    then (later, answered (status 400))
    else proposing up kv req
        (propose (c.marshal (record { op = delete_op; key = key_of req; value = [] })) caller later)

unfoldable pub handle_get : Upstream → KvStore → Request → Node → Response
handle_get up kv req n =
    if not (is_leader n.state)
    then proxy_to_leader up kv req n
    else if str_eq (key_of req) []
    then status 400
    else elim (lookup (key_of req) kv.contents) [
      | none ↦ status 404
      | some value ↦ key_value (key_of req) value
    ]

-- The route of `/keys/`.
unfoldable pub handle_keys :
    Upstream → Codec → ℕ → KvStore → Request → Node → Node → Node × Handling
handle_keys up c caller kv req n later = elim req.method [
  | http_get ↦ (later, answered (handle_get up kv req n))
  | http_put ↦ handle_put up c caller kv req n later
  | http_delete ↦ handle_delete up c caller kv req n later
  | http_other ↦ (later, answered (status 405))
]
