-- ===== src/Wal/File/Holds.antt =====
-- raft/persistence.go: whatever the system calls do, the file holds a prefix of what was written.
use raftly.Common.{
  ◌+◌, ◌-◌, ◌≡◌, ◌∙◌, refl, sym, ltb, ◌==◌, ap, [], ◌++◌, none, some, Bool, true, false, Bytes,
  length, take, drop, take-append-drop, append_assoc, append-nil, arith, Option-cases, Bool-cases,
  inl, inr,
}
use raftly.Wal.File.{
  buffer_size, Call, Wal, sys_call, sys_write, flush, flushed, written, direct_write, write_rest,
  overflowing, buffered_write,
}

-- What a system call writes of `p`.
record Wrote (p : Bytes) (w w' : Wal) (c : Call) : Type 0 where
  front : Bytes
  rest : Bytes
  split : front ++ rest ≡ p
  file : w'.file ≡ w.file ++ front
  whole : c ≡ none → rest ≡ []
  sticky : w'.sticky ≡ w.sticky
  pending : w'.pending ≡ w.pending

sys_write-Wrote : (w : Wal) (p : Bytes) → Wrote p w (sys_write w p).0 (sys_write w p).1
unfolding sys_write
sys_write-Wrote w p = elim (Option-cases (sys_call w).1) [
  | inl e ↦ record {
    front = p;
    rest = [];
    split = append-nil p;
    file = ground arith;
    whole = λ _. refl;
    sticky = ground arith;
    pending = ground arith;
  }
  | inr (k, e) ↦ record {
    front = take k p;
    rest = drop k p;
    split = take-append-drop k p;
    file = ground arith;
    whole = λ q. ground arith;
    sticky = ground arith;
    pending = ground arith;
  }
]

-- A write of `p` that completes what is held.
module _ (all p : Bytes) {w w' : Wal} {c : Call} (here : w.file ++ p ≡ all)
    (r : Wrote p w w' c) where
  file-all : c ≡ none → w'.file ≡ all
  file-all e = rw r.file (rw (← append-nil r.front, ← r.whole e, r.split) here)

  lost-prefix : w'.file ++ r.rest ≡ all
  lost-prefix = rw (r.file, append_assoc w.file r.front r.rest, r.split) here

-- The state of a writer that has not failed and holds `all`, in the buffer or past it.
abbrev pub Clean : Bytes → Wal → Type 0
Clean all w = (w.sticky ≡ false) × (w.file ++ w.pending ≡ all)

-- After a method: a success leaves a clean writer, and a failure a prefix.
pub record Leaves (all : Bytes) (q : Wal × Bool) : Type 0 where
  pub lost : Bytes
  pub prefix : q.0.file ++ lost ≡ all
  pub clean : q.1 ≡ true → Clean all q.0
  pub dead : q.1 ≡ false → q.0.sticky ≡ true

flushed-Leaves :
    (all p : Bytes) {w w' : Wal} (c : Call)
    → w.sticky ≡ false
    → w.file ++ p ≡ all
    → Wrote p w w' c
    → Leaves all (flushed p (w', c))
unfolding flushed
flushed-Leaves all p none s here r = record {
  lost = r.rest;
  prefix = lost-prefix all p here r;
  clean = λ _. (r.sticky ∙ s, append-nil _ ∙ file-all all p here r refl);
  dead = λ e. cc;
}
flushed-Leaves all p (some k) s here r = record {
  lost = r.rest;
  prefix = lost-prefix all p here r;
  clean = λ e. cc;
  dead = λ _. refl;
}

flush_empty : (w : Wal) → w.sticky ≡ false → (length w.pending == 0) ≡ true → flush w ≡ (w, true)
unfolding flush
flush_empty w s e = ground arith

flush_full :
    (w : Wal)
    → w.sticky ≡ false
    → (length w.pending == 0) ≡ false
    → flush w ≡ flushed w.pending (sys_write w w.pending)
unfolding flush
flush_full w s e = ground arith

pub flush-Leaves : (all : Bytes) (w : Wal) → Clean all w → Leaves all (flush w)
flush-Leaves all w (s, here) = elim (Bool-cases (length w.pending == 0)) [
  | inl e ↦
      rw (flush_empty w s e)
        (record { lost = w.pending; prefix = here; clean = λ _. (s, here); dead = λ e. cc })
  | inr e ↦
      rw (flush_full w s e) (
        flushed-Leaves all w.pending (sys_write w w.pending).1 s here (sys_write-Wrote w w.pending))
]

-- A successful flush empties the buffer.
pub pending-flush : (w : Wal) → (flush w).1 ≡ true → (flush w).0.pending ≡ []
unfolding flush flushed
pending-flush w e = ground arith

written-Leaves :
    (all p : Bytes) {w w' : Wal} (c : Call)
    → w.sticky ≡ false
    → w.pending ≡ []
    → w.file ++ p ≡ all
    → Wrote p w w' c
    → Leaves all (written (w', c))
unfolding written
written-Leaves all p none s empty here r = record {
  lost = r.rest;
  prefix = lost-prefix all p here r;
  clean = λ _. (r.sticky ∙ s, rw (r.pending, empty, append-nil) (file-all all p here r refl));
  dead = λ e. cc;
}
written-Leaves all p (some k) s empty here r = record {
  lost = r.rest;
  prefix = lost-prefix all p here r;
  clean = λ e. cc;
  dead = λ _. refl;
}

direct_write-Leaves :
    (all p : Bytes) (w : Wal)
    → w.sticky ≡ false
    → w.pending ≡ []
    → w.file ++ p ≡ all
    → Leaves all (direct_write w p)
unfolding direct_write
direct_write-Leaves all p w s empty here =
    written-Leaves all p (sys_write w p).1 s empty here (sys_write-Wrote w p)

write_rest-Leaves :
    (all rest : Bytes) (q : Wal × Bool)
    → Leaves all q
    → (q.1 ≡ true → q.0.pending ≡ [])
    → Leaves (all ++ rest) (write_rest rest q)
unfolding write_rest
write_rest-Leaves all rest (w, false) h empty = record {
  lost = h.lost ++ rest;
  prefix = rw (← append_assoc w.file h.lost rest, h.prefix);
  clean = λ e. cc;
  dead = h.dead;
}
write_rest-Leaves all rest (w, true) h empty = elim (Bool-cases (ltb buffer_size (length rest))) [
  | inl big ↦ rw big (direct_write-Leaves (all ++ rest) rest w s none_left here)
  | inr small ↦
      rw small (record { lost = rest; prefix = here; clean = λ _. (s, here); dead = λ e. cc })
]
  where
    s : w.sticky ≡ false
    s = (h.clean refl).0

    none_left : w.pending ≡ []
    none_left = empty refl

    here : w.file ++ rest ≡ all ++ rest
    here = ap (λ t. t ++ rest) (sym (append-nil w.file) ∙ rw (← none_left) (h.clean refl).1)

buffered_write_big :
    (w : Wal) (p : Bytes)
    → w.sticky ≡ false
    → ltb buffer_size (length w.pending + length p) ≡ true
    → buffered_write w p ≡ overflowing w p
unfolding buffered_write
buffered_write_big w p s e = ground arith

buffered_write_small :
    (w : Wal) (p : Bytes)
    → w.sticky ≡ false
    → ltb buffer_size (length w.pending + length p) ≡ false
    → buffered_write w p ≡ (record w { pending = w.pending ++ p }, true)
unfolding buffered_write
buffered_write_small w p s e = ground arith

overflowing-Leaves : (all p : Bytes) (w : Wal) → Clean all w → Leaves (all ++ p) (overflowing w p)
unfolding overflowing
overflowing-Leaves all p w (s, here) = elim (Bool-cases (length w.pending == 0)) [
  | inl e ↦
      let none_left : w.pending ≡ [] = ground arith in
      rw e (
        direct_write-Leaves (all ++ p) p w s none_left
          (ap (λ t. t ++ p) (sym (append-nil w.file) ∙ rw (← none_left) here)))
  | inr e ↦
      let room = buffer_size - length w.pending in
      let w1 : Wal = record w { pending = w.pending ++ take room p } in
      let filled : Clean (all ++ take room p) w1 =
        (s, rw (← append_assoc w.file w.pending (take room p)) (ap (λ t. t ++ take room p) here)) in
      let split : all ++ p ≡ (all ++ take room p) ++ drop room p =
        rw (append_assoc all (take room p) (drop room p), take-append-drop room p) in
      rw (e, split)
        (write_rest-Leaves (all ++ take room p) (drop room p) (flush w1)
          (flush-Leaves (all ++ take room p) w1 filled) (pending-flush w1))
]

-- A write adds its bytes to what is held; if it fails, the file has a prefix of them all.
pub buffered_write-Leaves :
    (all p : Bytes) (w : Wal) → Clean all w → Leaves (all ++ p) (buffered_write w p)
buffered_write-Leaves all p w (s, here) =
    elim (Bool-cases (ltb buffer_size (length w.pending + length p))) [
      | inl big ↦ rw (buffered_write_big w p s big) (overflowing-Leaves all p w (s, here))
      | inr small ↦ rw (buffered_write_small w p s small) (record {
        lost = w.pending ++ p;
        prefix = joined;
        clean = λ _. (s, joined);
        dead = λ e. cc;
      })
    ]
  where
    joined : w.file ++ (w.pending ++ p) ≡ all ++ p
    joined = rw (← append_assoc w.file w.pending p) (ap (λ t. t ++ p) here)
