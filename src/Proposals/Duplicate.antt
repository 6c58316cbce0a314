-- ===== src/Proposals/Duplicate.antt =====
-- raft/node.go and raft/persistence.go: what a restart finds of the entries of `Propose`.
use raftly.Common.{
  ℕ, ◌+◌, ◌^◌, ◌<◌, ◌≡◌, refl, sym, ◌∙◌, ap, List, [], ◌∷◌, ◌++◌, append_assoc, true, Bytes, All,
  Bool-cases, inl, inr, arith,
}
use raftly.Log.{LogEntry, last_index}
use raftly.Wal.Record.{WalRecord, entry, Recovered, nothing}
use raftly.Wal.Record.Decode.{IsStorable, replay}
use raftly.Wal.Read.{recovered, read_all}
use raftly.Wal.Recovery.{frames, replay_all}
use raftly.Wal.File.{Wal, Call}
use raftly.Wal.Ops.{save_entry, sync, open_wal}
use raftly.Wal.Durable.Session.{
  Save, put_entries, do_sync, session, all_saved, save, saved, synced_is_recovered,
}
use raftly.Node.{Node, is_leader}
use raftly.Proposals.{wal_sync_failed, waiting, proposed, propose}
use raftly.Proposals.Accepted.{propose-waiting}

session-append : (ss ts : List Save) (w : Wal) → session (ss ++ ts) w ≡ session ts (session ss w)
session-append [] ts w = refl
session-append (s ∷ ss) ts w = session-append ss ts (save s w)

all_saved-append : (ss ts : List Save) → all_saved (ss ++ ts) ≡ all_saved ss ++ all_saved ts
all_saved-append [] ts = refl
all_saved-append (s ∷ ss) ts =
    rw (all_saved-append ss ts) (sym (append_assoc (saved s) (all_saved ss) (all_saved ts)))

replay_all-append :
    (acc : Recovered) (rs qs : List WalRecord)
    → replay_all acc (rs ++ qs) ≡ replay_all (replay_all acc rs) qs
replay_all-append acc [] qs = refl
replay_all-append acc (r ∷ rs) qs = replay_all-append (replay acc r) rs qs

save_entry-session :
    (e : LogEntry) (w : Wal) → (save_entry e w).0 ≡ session (put_entries (e ∷ []) ∷ []) w
unfolding save_entry
save_entry-session e w = refl

-- The records of a session, with the entries that are saved at its end.
abbrev pub then_entries : List WalRecord → List Save → List WalRecord → List WalRecord
then_entries rs ss qs = (rs ++ all_saved ss) ++ qs

synced_after :
    (path : Bytes) (rs : List WalRecord) (calls : List Call) (ss ts : List Save)
    → All IsStorable (then_entries rs ss (all_saved ts))
    → (sync (session ts (session ss (open_wal path (frames rs) calls)))).1 ≡ true
    → read_all (sync (session ts (session ss (open_wal path (frames rs) calls)))).0.file
      ≡ recovered (replay_all (replay_all nothing (rs ++ all_saved ss)) (all_saved ts))
synced_after path rs calls ss ts s ok =
    let w = open_wal path (frames rs) calls in
    let records : rs ++ all_saved (ss ++ ts) ≡ then_entries rs ss (all_saved ts) =
      rw (all_saved-append ss ts) (sym (append_assoc rs (all_saved ss) (all_saved ts))) in
    let found =
      synced_is_recovered path rs calls (ss ++ ts) (rw records s)
        (rw (session-append ss ts w) ok) in
    rw
      (
        ← session-append ss ts w,
        ← replay_all-append nothing (rs ++ all_saved ss) (all_saved ts),
        ← records,
      )
      found

-- An entry is on disk before its caller starts to wait: over whatever the node saved before, with
-- any failures, recovery then yields the entry after all earlier ones.
propose_durable :
    (payload : Bytes) (caller : ℕ) (n : Node) {m : Node} {index term : ℕ} (path : Bytes)
    (rs : List WalRecord) (calls : List Call) (ss : List Save)
    → last_index n.log + 1 < 2 ^ 64
    → n.wal ≡ session ss (open_wal path (frames rs) calls)
    → All IsStorable (then_entries rs ss (entry (proposed payload n) ∷ []))
    → propose payload caller n ≡ (m, waiting index term)
    → (r : Recovered) × (read_all m.wal.file ≡ recovered r)
      × (r.entries ≡ (replay_all nothing (rs ++ all_saved ss)).entries ++ proposed payload n ∷ [])
propose_durable payload caller n {m} path rs calls ss small wal s q =
    let a = propose-waiting payload caller n small q in
    let e = proposed payload n in
    let w : (save_entry e n.wal).0
        ≡ session (put_entries (e ∷ []) ∷ []) (session ss (open_wal path (frames rs) calls)) =
      save_entry-session e n.wal ∙ ap (session (put_entries (e ∷ []) ∷ [])) wal in
    (
      replay_all (replay_all nothing (rs ++ all_saved ss)) (entry e ∷ []),
      rw (a.wal_of, w)
          (synced_after path rs calls ss (put_entries (e ∷ []) ∷ []) s (rw w at a.synced)),
      refl,
    )

sync_failed :
    (payload : Bytes) (caller : ℕ) (n : Node) {m : Node}
    → propose payload caller n ≡ (m, wal_sync_failed)
    → (m.log ≡ n.log) × (m.wal ≡ (sync (save_entry (proposed payload n) n.wal).0).0)
unfolding propose
sync_failed payload caller n {m} q = elim (Bool-cases (is_leader n.state)) [
  | inr off ↦ absurd (ground arith)
  | inl on ↦ elim (Bool-cases (save_entry (proposed payload n) n.wal).1) [
    | inr unwritten ↦ absurd (ground arith)
    | inl written ↦ elim (Bool-cases (sync (save_entry (proposed payload n) n.wal).0).1) [
      | inr unsynced ↦ (ground arith, ground arith)
      | inl synced ↦ absurd (ground arith)
    ]
  ]
]

-- A proposal whose `Sync` fails is refused and is not in the log, but it may be in the file; the
-- next proposal that is accepted takes the same index, and from the file both are recovered, two
-- entries in a row with one index.
pub refused_entry_is_recovered :
    (payload : Bytes) (caller : ℕ) (payload' : Bytes) (caller' : ℕ) (n : Node) {n1 m : Node}
    {index term : ℕ} (path : Bytes) (rs : List WalRecord) (calls : List Call) (ss : List Save)
    → last_index n.log + 1 < 2 ^ 64
    → n.wal ≡ session ss (open_wal path (frames rs) calls)
    → All IsStorable
        (then_entries rs ss (entry (proposed payload n) ∷ entry (proposed payload' n1) ∷ []))
    → propose payload caller n ≡ (n1, wal_sync_failed)
    → propose payload' caller' n1 ≡ (m, waiting index term)
    → (r : Recovered) × (read_all m.wal.file ≡ recovered r)
      × (r.entries
          ≡ (replay_all nothing (rs ++ all_saved ss)).entries
            ++ (proposed payload n ∷ proposed payload' n1 ∷ []))
      × ((proposed payload n).index ≡ index)
      × ((proposed payload' n1).index ≡ index)
refused_entry_is_recovered payload caller payload' caller' n {n1} {m} {index} path rs calls ss small
      wal s q q' =
    let (same_log, wal1) = sync_failed payload caller n q in
    let same : last_index n1.log ≡ last_index n.log = ap last_index same_log in
    let a = propose-waiting payload' caller' n1 (omega (arith, same)) q' in
    let e = proposed payload n in
    let e' = proposed payload' n1 in
    let start = session ss (open_wal path (frames rs) calls) in
    let ts : List Save = put_entries (e ∷ []) ∷ do_sync ∷ put_entries (e' ∷ []) ∷ [] in
    let w1 : n1.wal ≡ session (put_entries (e ∷ []) ∷ do_sync ∷ []) start =
      wal1
      ∙ ap (λ w. (sync w).0)
          (save_entry-session e n.wal ∙ ap (session (put_entries (e ∷ []) ∷ [])) wal) in
    let w : (save_entry e' n1.wal).0 ≡ session ts start =
      save_entry-session e' n1.wal ∙ ap (session (put_entries (e' ∷ []) ∷ [])) w1 in
    (
      replay_all (replay_all nothing (rs ++ all_saved ss)) (entry e ∷ entry e' ∷ []),
      rw (a.wal_of, w) (synced_after path rs calls ss ts s (rw w at a.synced)),
      append_assoc (replay_all nothing (rs ++ all_saved ss)).entries (e ∷ []) (e' ∷ []),
      omega (arith, a.index_of, same),
      omega (arith, a.index_of, same),
    )
