-- ===== src/Kv/Refines.antt =====
-- server/api.go: the map behind the log is the abstract store.
use mathlib.Core.Path.{fun_ext}
use raftly.Common.{
  ℕ, suc, ◌+◌, ◌≡◌, refl, sym, ◌∙◌, ap, List, [], ◌∷◌, Option, none, some, Bytes, str_eq,
  str_eq_iff, Bool-cases, Option-cases, inl, inr, arith,
}
use raftly.Log.{LogEntry}
use raftly.Kv.{
  Command, Codec, put_op, delete_op, Entries, lookup, delete, put, KvStore, counted, apply_command,
  apply, apply_loop,
}
use raftly.Kv.Spec.{Store, update, perform, commands, replay, writes}

abbrev pub view : KvStore → Store
view kv k = lookup k kv.contents

lookup-delete :
    (key k : Bytes) (ps : Entries) → lookup k (delete key ps) ≡ update key none (λ q. lookup q ps) k
lookup-delete key k [] = ground arith
lookup-delete key k (p ∷ ps) =
    ground (arith, lookup-delete key k ps, str_eq_iff p.0 key, str_eq_iff p.0 k, str_eq_iff key k)

lookup-put :
    (key value k : Bytes) (ps : Entries)
    → lookup k (put key value ps) ≡ update key (some value) (λ q. lookup q ps) k
lookup-put key value k ps = ground (arith, lookup-delete key k ps)

pub apply_command-perform :
    (cmd : Command) (kv : KvStore) → view (apply_command cmd kv) ≡ perform cmd (view kv)
unfolding apply_command
apply_command-perform cmd kv = elim (Bool-cases (str_eq cmd.op put_op)) [
  | inl puts ↦ rw (apply_command, puts) (fun_ext λ k. lookup-put cmd.key cmd.value k kv.contents)
  | inr other ↦ elim (Bool-cases (str_eq cmd.op delete_op)) [
    | inl deletes ↦
        rw (apply_command, other, deletes) (fun_ext λ k. lookup-delete cmd.key k kv.contents)
    | inr neither ↦ rw (apply_command, other, neither) refl
  ]
]

-- The counter after so many more commands.
abbrev pub plus : Option ℕ → ℕ → Option ℕ
plus none n = none
plus (some m) n = some (m + n)

counted-plus : (o : Option ℕ) (n : ℕ) → plus (counted o) n ≡ plus o (suc n)
counted-plus none n = refl
counted-plus (some m) n = ap some (omega arith)

plus-zero : (o : Option ℕ) → plus o 0 ≡ o
plus-zero none = refl
plus-zero (some m) = ap some (omega arith)

apply_command-counted :
    (cmd : Command) (kv : KvStore) (cmds : List Command)
    → plus (apply_command cmd kv).log_entries_total (writes cmds)
      ≡ plus kv.log_entries_total (writes (cmd ∷ cmds))
unfolding apply_command
apply_command-counted cmd kv cmds = elim (Bool-cases (str_eq cmd.op put_op)) [
  | inl puts ↦ rw (apply_command, puts) (counted-plus kv.log_entries_total (writes cmds))
  | inr other ↦ elim (Bool-cases (str_eq cmd.op delete_op)) [
    | inl deletes ↦
        rw (apply_command, other, deletes) (counted-plus kv.log_entries_total (writes cmds))
    | inr neither ↦ rw (apply_command, other, neither) refl
  ]
]

-- Whatever entries it receives, the loop leaves the map as the abstract store after their commands
-- in order, passing over entries that are no command, and counts the commands that write.
pub apply_loop_refines :
    (c : Codec) (es : List LogEntry) (kv : KvStore)
    → (view (apply_loop c es kv) ≡ replay (commands c es) (view kv))
      × ((apply_loop c es kv).log_entries_total
          ≡ plus kv.log_entries_total (writes (commands c es)))
unfolding apply_loop apply
apply_loop_refines c [] kv = (refl, sym (plus-zero kv.log_entries_total))
apply_loop_refines c (e ∷ es) kv = elim (Option-cases (c.unmarshal e.payload)) [
  | inl malformed ↦ rw (apply_loop, apply, malformed) (apply_loop_refines c es kv)
  | inr (cmd, decoded) ↦
      let rest = apply_loop_refines c es (apply_command cmd kv) in
      rw (apply_loop, apply, decoded)
        (
          rest.0 ∙ ap (replay (commands c es)) (apply_command-perform cmd kv),
          rest.1 ∙ apply_command-counted cmd kv (commands c es),
        )
]
