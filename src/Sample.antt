-- ===== src/Sample.antt =====
-- Small nodes and messages for the tests of the modules that model raft/.
use raftly.Common.{ℕ, [], ◌∷◌, Bytes, Bool, true, false, Option, none, some, ◌≡◌, refl, str_eq}
use raftly.Config.{follower, Config}
use raftly.Log.{LogEntry, sentinel}
use raftly.Log.{get_entry, append, commit_to, last_index, last_term, truncate_from}
use raftly.Wal.Crc.{checksum}
use raftly.Wal.Record.{encode, decode, frame}
use raftly.Wal.Read.{read_all, read_loop, next_record}
use raftly.Wal.File.{
  Wal, flush, flushed, sys_write, sys_call, buffered_write, overflowing, direct_write, write_rest,
  written,
}
use raftly.Wal.Ops
use raftly.Wal.Ops.{sync, fsync, save_state, save_entries, save_entry, write_record, open_wal}
use raftly.Replication.{
  handle_append_entries, check_prev, append_entries, overwrite, overwrite_log, save_and_append,
  advance_commit, conflict_start,
}
use raftly.Message.{VoteRequest, AppendEntriesRequest, AppendEntriesResponse}
use raftly.Node.{
  armed, Node, Env, become_follower, become_candidate, become_leader, reset_election_timer,
  random_election_timeout, adopt_term, persist_state,
}

-- "n1", "n2", "n3"
abbrev pub n1 : Bytes
n1 = 110 ∷ 49 ∷ []

abbrev pub n2 : Bytes
n2 = 110 ∷ 50 ∷ []

abbrev pub n3 : Bytes
n3 = 110 ∷ 51 ∷ []

abbrev pub env : Env
env = record { now = 7; roll = 12345 }

abbrev pub entry_at : ℕ → ℕ → LogEntry
entry_at index term = record { index = index; term = term; entry_type = 0; payload = 97 ∷ [] }

abbrev pub empty_wal : Wal
empty_wal = record {
  path = [];
  file = [];
  pending = [];
  sticky = false;
  closed = false;
  calls = [];
}

abbrev pub config : Config
config = record {
  node_id = n1;
  peers = [];
  election_timeout = 150;
  heartbeat_interval = 50;
  max_log_entries = 1000;
  snapshot_threshold = 10000;
  data_dir = [];
  enable_pre_vote = false;
}

-- A follower in term 1 with entries 1 and 2 of term 1, of which the first is committed.
abbrev pub node : Node
node = record {
  id = n1;
  config = config;
  current_term = 1;
  voted_for = [];
  state = follower;
  leader_id = [];
  log = record {
    entries = sentinel ∷ entry_at 1 1 ∷ entry_at 2 1 ∷ [];
    commit_index = 1;
    last_applied = 0;
  };
  wal = empty_wal;
  peers =
      record { id = n2; next_index = 1; match_index = 0 }
      ∷ record { id = n3; next_index = 1; match_index = 0 }
      ∷ [];
  election_timer = armed 150;
  election_timeout = 150;
  last_leader_contact = 0;
  commit_ch = [];
  proposals = [];
  notified = [];
  tasks = [];
  stopping = false;
  timing_update = none;
  registered = false;
}

abbrev pub vote_request : Bytes → ℕ → VoteRequest
vote_request candidate term = record {
  term = term;
  candidate_id = candidate;
  last_log_index = 2;
  last_log_term = 1;
  pre_vote = false;
}

-- The leader of term 2 sends entry 2, of its own term, after entry 1.
abbrev pub entries_message : AppendEntriesRequest
entries_message = record {
  term = 2;
  leader_id = n2;
  prev_log_index = 1;
  prev_log_term = 1;
  entries = entry_at 2 2 ∷ [];
  leader_commit = 2;
}

-- The result of a handler that does not panic.
abbrev pub result : Option (Node × AppendEntriesResponse) → Node × AppendEntriesResponse
result none = (node, record { term = 0; success = true; conflict_term = 0; conflict_index = 0 })
result (some q) = q

abbrev pub is_some : Option (Node × AppendEntriesResponse) → Bool
is_some none = false
is_some (some q) = true

pub result_lem :
    (o : Option (Node × AppendEntriesResponse)) → is_some o ≡ true → o ≡ some (result o)
result_lem none h = absurd (cc)
result_lem (some q) h = refl

-- What a test unfolds to run the code.
unfoldable pub runs : Unit {0}
unfolding handle_append_entries check_prev append_entries overwrite overwrite_log save_and_append
    advance_commit conflict_start get_entry append commit_to last_index last_term truncate_from
    Ops.truncate_from become_follower become_candidate become_leader reset_election_timer
    random_election_timeout adopt_term persist_state sync fsync flush flushed sys_write sys_call
    buffered_write overflowing direct_write write_rest written save_state save_entries save_entry
    write_record encode decode frame checksum open_wal read_all read_loop next_record str_eq
runs = tt
