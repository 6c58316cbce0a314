-- ===== src/Wal/Ops/Truncate.antt =====
-- raft/persistence.go: what `TruncateFrom` leaves in the file.
use raftly.Common.{
  ℕ, ◌≡◌, refl, sym, ◌∙◌, ap, List, [], ◌∷◌, ◌++◌, map, append-nil, append_assoc, some, none, Bool,
  true, Bytes, All, Bool-cases, inl, inr, ltb, arith,
}
use raftly.Log.{LogEntry}
use raftly.Wal.Record.{WalRecord, state, entry, encode, Recovered, nothing}
use raftly.Wal.Record.Decode.{IsStorable, replay}
use raftly.Wal.Read.{recovered, read_all}
use raftly.Wal.Recovery.{frames, replay_all}
use raftly.Wal.File.{Wal, Call, sys_call}
use raftly.Wal.Ops.{
  ◌>>◌, open_wal, write_record, save_state, save_entries, save_entry, sync, before, save_before,
  reopened, reopen, rewrite, truncate_from,
}
use raftly.Wal.Durable.Session.{Save, put_state, put_entries, session, synced_is_recovered}

save_before_lem :
    (index : ℕ) (es : List LogEntry) (w : Wal)
    → save_before index es w ≡ save_entries (before index es) w
unfolding save_before save_entry save_entries
save_before_lem index [] w = refl
save_before_lem index (e ∷ es) w = elim (Bool-cases (ltb e.index index)) [
  | inl kept ↦ elim (Bool-cases (write_record (encode (entry e)) w).1) [
    | inl done ↦
        rw (save_before, save_entry, save_entries, kept, done)
          (save_before_lem index es (write_record (encode (entry e)) w).0)
    | inr failed ↦ rw (save_before, save_entry, save_entries, kept, failed) refl
  ]
  | inr cut ↦ rw (save_before, cut) (save_before_lem index es w)
]

-- A sequence of methods that succeeds has gone through both, and the state is the second's.
then_lem :
    (m k : Wal → Wal × Bool) (w : Wal) {w' : Wal}
    → (m >> k) w ≡ (w', true)
    → (m w).1 ≡ true × (k (m w).0 ≡ (w', true))
then_lem m k w q = elim (Bool-cases (m w).1) [
  | inl done ↦ (done, ground arith)
  | inr failed ↦ absurd (ground arith)
]

reopened_lem :
    (q : Wal × Call) → (reopened q).1 ≡ true → (reopened q).0 ≡ open_wal q.0.path [] q.0.calls
unfolding reopened
reopened_lem (w, none) ok = refl
reopened_lem (w, some k) ok = absurd (cc)

reopen_lem :
    (w : Wal)
    → (reopen w).1 ≡ true
    → (path : Bytes) × (cs : List Call) × ((reopen w).0 ≡ open_wal path [] cs)
unfolding reopen
reopen_lem w ok = ((sys_call w).0.path, (sys_call w).0.calls, reopened_lem (sys_call w) ok)

replay_all-entry :
    (acc : Recovered) (es : List LogEntry)
    → replay_all acc (map entry es) ≡ record acc { entries = acc.entries ++ es }
replay_all-entry acc [] = ap (λ xs. record acc { entries = xs }) (sym (append-nil acc.entries))
replay_all-entry acc (e ∷ es) =
    replay_all-entry (replay acc (entry e)) es
    ∙ ap (λ xs. record acc { entries = xs }) (append_assoc acc.entries (e ∷ []) es)

-- What is left of what was recovered.
abbrev pub truncated : ℕ → Recovered → Recovered
truncated index r = record r { entries = before index r.entries }

abbrev pub truncated_records : ℕ → Recovered → List WalRecord
truncated_records index r = state r.term r.voted_for ∷ map entry (before index r.entries)

rewrite_lem :
    (index : ℕ) (r : Recovered) (w : Wal) {w' : Wal}
    → All IsStorable (truncated_records index r)
    → rewrite index r w ≡ (w', true)
    → read_all w'.file ≡ recovered (truncated index r)
unfolding rewrite
rewrite_lem index r w {w'} s q =
    let stating = save_state r.term r.voted_for in
    let keeping = save_before index r.entries in
    let (opened, q1) = then_lem reopen (stating >> (keeping >> sync)) w q in
    let (path, cs, fresh) = reopen_lem w opened in
    let (stated, q2) = then_lem stating (keeping >> sync) (reopen w).0 q1 in
    let (kept, q3) = then_lem keeping sync (stating (reopen w).0).0 q2 in
    let es = before index r.entries in
    let saves : List Save = put_state r.term r.voted_for ∷ put_entries es ∷ [] in
    let at : (keeping (stating (reopen w).0).0).0 ≡ session saves (open_wal path (frames []) cs) =
      rw (save_before_lem index r.entries (stating (reopen w).0).0, fresh) refl in
    let done : sync (session saves (open_wal path (frames []) cs)) ≡ (w', true) = rw at at q3 in
    let all = append-nil (map entry es) in
    let found =
      synced_is_recovered path [] cs saves (rw all s) (ap (λ (t : Wal × Bool). t.1) done) in
    ap (λ (t : Wal × Bool). read_all t.0.file) (sym done)
    ∙ found
    ∙ ap recovered (
        ap (λ xs. replay_all (replay nothing (state r.term r.voted_for)) xs) all
        ∙ replay_all-entry (replay nothing (state r.term r.voted_for)) es)

-- A `TruncateFrom` without an error leaves a file from which the term, the vote and exactly the
-- entries below the index are recovered, when the records that it writes fit the format.
pub truncate_from_lem :
    (index : ℕ) (w : Wal) (r : Recovered) {w' : Wal}
    → read_all w.file ≡ recovered r
    → All IsStorable (truncated_records index r)
    → truncate_from index w ≡ some (w', true)
    → read_all w'.file ≡ recovered (truncated index r)
unfolding truncate_from
truncate_from_lem index w r {w'} found s q = elim (Bool-cases w.closed) [
  | inl shut ↦ absurd (ground arith)
  | inr live ↦
      let done : rewrite index r w ≡ (w', true) = ground arith in rewrite_lem index r w s done
]
