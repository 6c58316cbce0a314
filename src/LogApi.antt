-- ===== src/LogApi.antt =====
-- server/log.go: the log over HTTP, of one node and of all. JSON is the library's: the codec of a
-- command is Kv's, and a view arrives from a peer as it was sent, which JSON does for text in
-- UTF-8.
pub mod Limit
pub mod Views
mod Tests
use raftly.Common.{
  ℕ, suc, ◌+◌, ◌*◌, ◌-◌, ◌^◌, List, [], ◌∷◌, ◌++◌, map, Option, none, some, Bool, true, false, not,
  ◌&&◌, ◌||◌, Bytes, ltb, leb, ◌==◌, str_eq, if◌then◌else◌,
}
use raftly.Log.{LogEntry, entry_normal, entry_config}
use raftly.Node.{Node}
use raftly.Lifecycle.{status, log_snapshot}
use raftly.Chaos.{decimal}
use raftly.Http.{Delivery, lost, unanswered, returned, http_address, sort_strings, ids_of}
use raftly.Kv.{Command, Codec, put_op, delete_op}

-- The loop of `strconv.Atoi` over the digits.
abbrev pub digits : ℕ → Bytes → Option ℕ
digits value [] = some value
digits value (c ∷ cs) =
    let rest = digits (value * 10 + (c - 48)) cs in if leb 48 c && leb c 57 then rest else none

-- `strconv.Atoi`; a number below 0 is 0 here. No digits are an error, and so is a number that no
-- `int` holds.
abbrev pub in_range : ℕ → Option ℕ → Option ℕ
in_range limit none = none
in_range limit (some n) = if ltb n limit then some n else none

abbrev pub negative : Option ℕ → Option ℕ
negative none = none
negative (some n) = some 0

abbrev pub some_digits : Bytes → Option ℕ
some_digits [] = none
some_digits (c ∷ cs) = digits 0 (c ∷ cs)

unfoldable pub atoi : Bytes → Option ℕ
atoi [] = none
atoi (c ∷ cs) =
    if c == 45
    then negative (in_range (2 ^ 63 + 1) (some_digits cs))
    else if c == 43
    then in_range (2 ^ 63) (some_digits cs)
    else in_range (2 ^ 63) (digits 0 (c ∷ cs))

-- `strconv.Itoa` of a number that is not negative.
abbrev pub itoa : ℕ → Bytes
itoa n = decimal (suc n) n

-- The limit of a query, empty when there is none.
unfoldable pub parse_limit : Bytes → ℕ → ℕ
parse_limit s fallback = elim (atoi s) [
  | none ↦ fallback
  | some n ↦ if not (str_eq s []) && ltb 0 n && leb n 200 then n else fallback
]

abbrev pub normal : Bytes
normal = 110 ∷ 111 ∷ 114 ∷ 109 ∷ 97 ∷ 108 ∷ []

abbrev pub config : Bytes
config = 99 ∷ 111 ∷ 110 ∷ 102 ∷ 105 ∷ 103 ∷ []

abbrev pub unknown : Bytes
unknown = 117 ∷ 110 ∷ 107 ∷ 110 ∷ 111 ∷ 119 ∷ 110 ∷ []

unfoldable pub entry_type_string : ℕ → Bytes
entry_type_string t =
    if t == entry_normal then normal else if t == entry_config then config else unknown

-- The text of a command, and of other bytes these bytes.
unfoldable pub decode_entry : Codec → Bytes → Bytes
decode_entry c payload = elim (c.unmarshal payload) [
  | none ↦ payload
  | some cmd ↦
      if str_eq payload [] || str_eq cmd.op []
      then payload
      else if str_eq cmd.op put_op
      then put_op ++ (32 ∷ (cmd.key ++ (61 ∷ cmd.value)))
      else if str_eq cmd.op delete_op
      then 100 ∷ 101 ∷ 108 ∷ 32 ∷ cmd.key
      else cmd.op ++ (32 ∷ cmd.key)
]

pub record LogEntryView : Type 0 where
  pub index : ℕ
  pub term : ℕ
  pub entry_type : Bytes
  pub committed : Bool
  pub applied : Bool
  pub text : Bytes  -- the field `Data`

pub record NodeLogView : Type 0 where
  pub node : Bytes
  pub last_index : ℕ
  pub commit_index : ℕ
  pub last_applied : ℕ
  pub entries : List LogEntryView

abbrev pub entry_view : Codec → Node → LogEntry → LogEntryView
entry_view c n e = record {
  index = e.index;
  term = e.term;
  entry_type = entry_type_string e.entry_type;
  committed = leb e.index (status n).commit_index;
  applied = leb e.index (status n).last_applied;
  text = decode_entry c e.payload;
}

unfoldable pub local_view : Codec → ℕ → Node → NodeLogView
local_view c limit n = record {
  node = (status n).id;
  last_index = (status n).log_index;
  commit_index = (status n).commit_index;
  last_applied = (status n).last_applied;
  entries = map (entry_view c n) (log_snapshot limit n);
}

unfoldable pub handle_log : Codec → Bytes → Node → NodeLogView
handle_log c query n = local_view c (parse_limit query 20) n

pub record LogApi : Type 0 where
  pub node : Node
  pub http_peers : List (Bytes × Bytes)

unfoldable pub new_log_api : Node → List (Bytes × Bytes) → LogApi
new_log_api node http_peers = record { node = node; http_peers = http_peers }

-- `none` is an error. The servers are those at the addresses; the limit goes in the query.
unfoldable pub fetch_peer_log :
    Codec
    → (Bytes → Delivery)
    → (Bytes → Option Node)
    → List (Bytes × Bytes)
    → Bytes
    → ℕ
    → Option NodeLogView
fetch_peer_log c net servers http_peers peer limit = elim (http_address peer http_peers) [
  | none ↦ none
  | some address ↦ elim (servers address) [
    | none ↦ none
    | some n ↦ elim (net address) [
      | lost ↦ none
      | unanswered ↦ none
      | returned ↦ some (handle_log c (itoa limit) n)
    ]
  ]
]

abbrev pub log_of :
    Codec → (Bytes → Delivery) → (Bytes → Option Node) → LogApi → ℕ → Bytes → Option NodeLogView
log_of c net servers l limit id =
    if str_eq id (status l.node).id
    then some (local_view c limit l.node)
    else fetch_peer_log c net servers l.http_peers id limit

unfoldable pub handle_cluster_log :
    Codec
    → Bytes
    → (Bytes → Delivery)
    → (Bytes → Option Node)
    → LogApi
    → List (Bytes × Option NodeLogView)
handle_cluster_log c query net servers l =
    map (λ id. (id, log_of c net servers l (parse_limit query 20) id))
      (sort_strings (ids_of l.http_peers))
