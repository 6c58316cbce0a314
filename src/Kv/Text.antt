-- ===== src/Kv/Text.antt =====
-- server/api.go: what its JSON codec is relied on for. JSON carries a string unchanged when it is
-- UTF-8; of other bytes `Marshal` makes replacement characters.
use raftly.Common.{◌≡◌, some}
use raftly.Utf8.{IsUtf8}
use raftly.Kv.{Command, Codec}

-- What the library documents of the codec.
pub record CodecLaws (c : Codec) : Type 0 where
  pub unmarshal-marshal :
      (cmd : Command)
      → IsUtf8 cmd.op
      → IsUtf8 cmd.key
      → IsUtf8 cmd.value
      → c.unmarshal (c.marshal cmd) ≡ some cmd
