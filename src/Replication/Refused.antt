-- ===== src/Replication/Refused.antt =====
-- raft/replication.go: `overwrite` truncates the file before the log in memory, which may refuse.
use raftly.Config.{Config}
use raftly.Log
use raftly.Wal.File.{Wal}
use raftly.Wal.Ops
use raftly.Message.{AppendEntriesRequest}
use raftly.Node.{Node, Env, become_follower}

-- The node when it has accepted the request's term and leader.
abbrev pub told : Env → AppendEntriesRequest → Node → Node
told env req n = become_follower env req.term req.leader_id n
