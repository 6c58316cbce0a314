-- ===== src/Wal/File.antt =====
-- raft/persistence.go: the file and the `bufio.Writer` in front of it.
pub mod Holds
use raftly.Common.{
  ℕ, ◌+◌, ◌-◌, List, [], ◌∷◌, ◌++◌, Option, none, some, Bool, true, false, Bytes, length, take,
  drop, ltb, ◌==◌, if◌then◌else◌,
}

-- What a coming system call does: it succeeds (`none`), or fails after so many bytes (`some k`).
abbrev pub Call : Type 0
Call = Option ℕ

pub record Wal : Type 0 where
  pub path : Bytes
  pub file : Bytes  -- what the file holds
  pub pending : Bytes  -- in the buffer of `writer`
  pub sticky : Bool  -- `writer` has failed, and fails from then on
  pub closed : Bool  -- `file` is closed: each call fails
  pub calls : List Call  -- the coming system calls; where the list ends they succeed

abbrev pub buffer_size : ℕ
buffer_size = 4096

unfoldable pub sys_call : Wal → Wal × Call
sys_call w =
    if w.closed
    then (w, some 0)
    else elim w.calls [ [] ↦ (w, none) | c ∷ cs ↦ (record w { calls = cs }, c) ]

-- `file.Write`
unfoldable pub sys_write : Wal → Bytes → Wal × Call
unfolding sys_call
sys_write w p =
    let (w', c) = sys_call w in
    elim c [
      | none ↦ (record w' { file = w'.file ++ p }, none)
      | some k ↦ (record w' { file = w'.file ++ take k p }, some k)
    ]

-- After the write of `p` that `Flush` makes: what was not written stays in the buffer.
unfoldable pub flushed : Bytes → Wal × Call → Wal × Bool
flushed p (w, none) = (record w { pending = [] }, true)
flushed p (w, some k) = (record w { pending = drop k p; sticky = true }, false)

-- `writer.Flush`. The second component says whether the error is nil.
unfoldable pub flush : Wal → Wal × Bool
flush w =
    if w.sticky
    then (w, false)
    else if length w.pending == 0
    then (w, true)
    else flushed w.pending (sys_write w w.pending)

-- A write past the buffer, which is then empty.
unfoldable pub written : Wal × Call → Wal × Bool
written (w, none) = (w, true)
written (w, some k) = (record w { sticky = true }, false)

unfoldable pub direct_write : Wal → Bytes → Wal × Bool
direct_write w p = written (sys_write w p)

-- The rest of a write after the first flush: it goes past the buffer if it does not fit.
unfoldable pub write_rest : Bytes → Wal × Bool → Wal × Bool
write_rest rest (w, false) = (w, false)
write_rest rest (w, true) =
    if ltb buffer_size (length rest)
    then direct_write w rest
    else (record w { pending = rest }, true)

unfoldable pub overflowing : Wal → Bytes → Wal × Bool
overflowing w p =
    let room = buffer_size - length w.pending in
    if length w.pending == 0
    then direct_write w p
    else write_rest (drop room p) (flush (record w { pending = w.pending ++ take room p }))

-- `writer.Write`: what fits is buffered; else the buffer is filled and flushed first, unless it is
-- empty.
unfoldable pub buffered_write : Wal → Bytes → Wal × Bool
buffered_write w p =
    if w.sticky
    then (w, false)
    else if ltb buffer_size (length w.pending + length p)
    then overflowing w p
    else (record w { pending = w.pending ++ p }, true)
