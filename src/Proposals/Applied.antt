-- ===== src/Proposals/Applied.antt =====
-- raft/replication.go: what `applyCommitted` hands to the application.
use raftly.Common.{
  ℕ, zero, suc, ◌+◌, ◌-◌, ◌^◌, ◌≤◌, ◌<◌, ◌≡◌, refl, sym, ◌∙◌, ap, List, [], ◌∷◌, ◌++◌, append-nil,
  append_assoc, length, get_elem?, get_elem?-le_length, take, drop, drop-get_elem?, length-take,
  length-drop, leb, u64, Bool-cases, Option-cases, inl, inr, arith,
}
use raftly.Log.{LogEntry, RaftLog, get_entry, set_last_applied}
use raftly.Log.Shape.{Contiguous, Contiguous-drop, IsWellFormed, Contiguous-take}
use raftly.Node.{Node}
use raftly.Proposals.{
  collect, unapplied, notify_proposal, deliver, deliver_all, apply_committed, caller_at,
}

collect_lem :
    (l : RaftLog) (i count : ℕ)
    → i + count ≤ length l.entries
    → i + count < 2 ^ 64
    → collect l i count ≡ take count (drop i l.entries)
unfolding collect get_entry
collect_lem l i zero h small = refl
collect_lem l i (suc count) h small = elim (Option-cases (get_elem? l.entries i)) [
  | inl missing ↦ absurd (omega (arith, get_elem?-le_length l.entries i missing))
  | inr (e, found) ↦
      let next : u64 (i + 1) ≡ suc i = omega arith in
      rw (collect, get_entry, found, drop-get_elem? i l.entries found, next)
        (ap (λ es. e ∷ es) (collect_lem l (suc i) count (omega arith) (omega arith)))
]

-- The entries that are committed and not applied, in order.
abbrev pub pending : Node → List LogEntry
pending n =
    take (n.log.commit_index - n.log.last_applied) (drop (suc n.log.last_applied) n.log.entries)

pub unapplied_lem :
    (n : Node) → IsWellFormed n.log → length n.log.entries < 2 ^ 64 → unapplied n ≡ pending n
unfolding unapplied
unapplied_lem n w small = elim (Bool-cases (leb n.log.commit_index n.log.last_applied)) [
  | inl all ↦
      let z : n.log.commit_index - n.log.last_applied ≡ 0 = ground arith in
      rw (unapplied, all, z) refl
  | inr some_left ↦
      let next : u64 (n.log.last_applied + 1) ≡ suc n.log.last_applied =
        omega (arith, w.commit_bound, w.applied_bound) in
      rw (unapplied, some_left, next)
        (collect_lem n.log (suc n.log.last_applied) _ (ground (arith, w.commit_bound))
          (ground (arith, w.commit_bound)))
]

pub pending-Contiguous :
    (n : Node) → IsWellFormed n.log → Contiguous (suc n.log.last_applied) (pending n)
pending-Contiguous n w =
    let s : 0 + suc n.log.last_applied ≡ suc n.log.last_applied = omega arith in
    Contiguous-take (suc n.log.last_applied) _ _
      (rw s at (Contiguous-drop 0 (suc n.log.last_applied) n.log.entries w.contiguous))

pub length-pending :
    (n : Node) → IsWellFormed n.log → n.log.last_applied + length (pending n) ≡ n.log.commit_index
length-pending n w = omega (
  arith,
  w.commit_bound,
  w.applied_bound,
  length-take (n.log.commit_index - n.log.last_applied)
      (drop (suc n.log.last_applied) n.log.entries),
  length-drop (suc n.log.last_applied) n.log.entries,
)

-- `lastApplied` after the entries were delivered.
abbrev last_of : ℕ → List LogEntry → ℕ
last_of i [] = i
last_of i (e ∷ es) = last_of e.index es

last_of-Contiguous :
    (k i : ℕ) (es : List LogEntry) → suc i ≡ k → Contiguous k es → last_of i es ≡ i + length es
last_of-Contiguous k i [] p c = omega arith
last_of-Contiguous k i (e ∷ es) p c =
    omega (arith, c.0, last_of-Contiguous (suc k) e.index es (omega (arith, c.0)) c.1)

-- What a delivery changes, the callers aside.
pub record Delivered (es : List LogEntry) (n m : Node) : Type 0 where
  pub channel : m.commit_ch ≡ n.commit_ch ++ es
  pub entries : m.log.entries ≡ n.log.entries
  pub commit : m.log.commit_index ≡ n.log.commit_index
  applied_last : m.log.last_applied ≡ last_of n.log.last_applied es

deliver-Delivered : (e : LogEntry) (n : Node) → Delivered (e ∷ []) n (deliver e n)
unfolding deliver notify_proposal set_last_applied
deliver-Delivered e n = elim (Option-cases (caller_at e.index n.proposals)) [
  | inl nobody ↦
      rw (deliver, notify_proposal, nobody)
        (record { channel = refl; entries = refl; commit = refl; applied_last = refl })
  | inr (c, waits) ↦
      rw (deliver, notify_proposal, waits)
        (record { channel = refl; entries = refl; commit = refl; applied_last = refl })
]

pub deliver_all-Delivered : (es : List LogEntry) (n : Node) → Delivered es n (deliver_all es n)
unfolding deliver_all
deliver_all-Delivered [] n = record {
  channel = sym (append-nil n.commit_ch);
  entries = refl;
  commit = refl;
  applied_last = refl;
}
deliver_all-Delivered (e ∷ es) n =
    let d = deliver-Delivered e n in
    let rest = deliver_all-Delivered es (deliver e n) in
    record {
      channel = rest.channel ∙ rw d.channel (append_assoc n.commit_ch (e ∷ []) es);
      entries = rest.entries ∙ d.entries;
      commit = rest.commit ∙ d.commit;
      applied_last = rest.applied_last ∙ rw d.applied_last refl;
    }

-- After entries that start right after some `lastApplied`, it is moved on by their number.
pub delivered_last :
    (i : ℕ) (es : List LogEntry) (n : Node)
    → 0 < length es
    → Contiguous (suc i) es
    → (deliver_all es n).log.last_applied ≡ i + length es
delivered_last i [] n pos c = absurd (omega arith)
delivered_last i (e ∷ es) n pos c = omega (
  arith,
  c.0,
  (deliver_all-Delivered (e ∷ es) n).applied_last,
  last_of-Contiguous (suc (suc i)) e.index es (omega (arith, c.0)) c.1,
)

-- `applyCommitted` by itself sends the entries after `lastApplied` up to the commit index, each once
-- and in order, and ends with `lastApplied` at the commit index; the log is as before otherwise.
pub apply_committed-Applied :
    (n : Node)
    → IsWellFormed n.log
    → length n.log.entries < 2 ^ 64
    → ((apply_committed n).commit_ch ≡ n.commit_ch ++ pending n)
      × ((apply_committed n).log.last_applied ≡ n.log.commit_index)
      × ((apply_committed n).log.commit_index ≡ n.log.commit_index)
      × ((apply_committed n).log.entries ≡ n.log.entries)
unfolding apply_committed
apply_committed-Applied n w small =
    let d = deliver_all-Delivered (pending n) n in
    let last =
      last_of-Contiguous (suc n.log.last_applied) n.log.last_applied (pending n) refl
        (pending-Contiguous n w) in
    rw (apply_committed, unapplied_lem n w small)
      (d.channel, omega (arith, d.applied_last, last, length-pending n w), d.commit, d.entries)
