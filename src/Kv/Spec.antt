-- ===== src/Kv/Spec.antt =====
-- server/api.go: the abstract store, a function from keys to values that commands change at a key.
use raftly.Common.{ℕ, suc, List, [], ◌∷◌, Option, none, some, Bytes, str_eq, if◌then◌else◌}
use raftly.Log.{LogEntry}
use raftly.Kv.{Command, Codec, put_op, delete_op}

abbrev pub Store : Type 0
Store = Bytes → Option Bytes

abbrev pub empty : Store
empty key = none

abbrev pub update : Bytes → Option Bytes → Store → Store
update key value f k = if str_eq key k then value else f k

abbrev pub perform : Command → Store → Store
perform cmd f =
    if str_eq cmd.op put_op
    then update cmd.key (some cmd.value) f
    else if str_eq cmd.op delete_op
    then update cmd.key none f
    else f

-- The commands of the entries, in order; an entry that is no command has none.
abbrev pub in_front : Option Command → List Command → List Command
in_front none cmds = cmds
in_front (some cmd) cmds = cmd ∷ cmds

abbrev pub commands : Codec → List LogEntry → List Command
commands c [] = []
commands c (e ∷ es) = in_front (c.unmarshal e.payload) (commands c es)

abbrev pub replay : List Command → Store → Store
replay [] f = f
replay (cmd ∷ cmds) f = replay cmds (perform cmd f)

-- How many of them write.
abbrev pub writes : List Command → ℕ
writes [] = 0
writes (cmd ∷ cmds) =
    let rest = writes cmds in
    if str_eq cmd.op put_op then suc rest else if str_eq cmd.op delete_op then suc rest else rest
