-- ===== src/Kv/Stale.antt =====
-- server/api.go over raft/replication.go: what the state machine makes of late deliveries.
use raftly.Common.{
  suc, ◌+◌, ◌-◌, ◌^◌, ◌<◌, ◌≡◌, sym, ◌∙◌, ap, List, [], ◌∷◌, ◌++◌, append_assoc, some, Bytes,
  length, get_elem?, take, drop, get_elem?-drop, arith,
}
use raftly.Log.{LogEntry, get_entry}
use raftly.Log.Shape.{IsWellFormed}
use raftly.Node.{Node}
use raftly.Proposals.{unapplied, deliver_all}
use raftly.Proposals.Applied.{pending}
use raftly.Proposals.Overlap.{late_delivery_moves_back}
use raftly.Kv.{Codec, put_op, KvStore, apply, apply_loop}
use raftly.Kv.Refines.{view}
use raftly.Kv.ReadBack.{take_snoc, apply_loop-append, put_view}

pending-last :
    (n : Node) {e : LogEntry}
    → n.log.last_applied < n.log.commit_index
    → get_entry n.log n.log.commit_index ≡ some e
    → (before : List LogEntry) × (pending n ≡ before ++ e ∷ [])
unfolding get_entry
pending-last n {e} lt there =
    let k = n.log.commit_index - suc n.log.last_applied in
    let count : n.log.commit_index - n.log.last_applied ≡ suc k = omega arith in
    let at : suc n.log.last_applied + k ≡ n.log.commit_index = omega arith in
    let rest = drop (suc n.log.last_applied) n.log.entries in
    let last : get_elem? rest k ≡ some e =
      get_elem?-drop (suc n.log.last_applied) k n.log.entries ∙ rw at there in
    (take k rest, ap (λ i. take i rest) count ∙ take_snoc k rest last)

apply_loop-last :
    (c : Codec) (es fs : List LogEntry) (e : LogEntry) (kv : KvStore)
    → apply_loop c (es ++ (fs ++ e ∷ [])) kv ≡ apply c e (apply_loop c (es ++ fs) kv)
unfolding apply_loop
apply_loop-last c es fs e kv =
    ap (λ xs. apply_loop c xs kv) (sym (append_assoc es fs (e ∷ [])))
    ∙ apply_loop-append c (es ++ fs) (e ∷ []) kv

-- A goroutine has collected up to a PUT, and sends when others have applied more: the store that
-- reads the channel has the old value at the key again, whatever newer entries it had applied.
pub late_delivery_reverts_value :
    (c : Codec) (kv : KvStore) (n m : Node) {e : LogEntry} (key value : Bytes)
    → IsWellFormed n.log
    → length n.log.entries < 2 ^ 64
    → n.log.last_applied < n.log.commit_index
    → n.log.commit_index < m.log.last_applied
    → get_entry n.log n.log.commit_index ≡ some e
    → c.unmarshal e.payload ≡ some (record { op = put_op; key = key; value = value })
    → view (apply_loop c (deliver_all (unapplied n) m).commit_ch kv) key ≡ some value
late_delivery_reverts_value c kv n m {e} key value w small some_left late there decoded =
    let channel = (late_delivery_moves_back n m w small some_left late).0 in
    let (before, ends) = pending-last n some_left there in
    let sent : (deliver_all (unapplied n) m).commit_ch ≡ m.commit_ch ++ (before ++ e ∷ []) =
      channel ∙ ap (λ es. m.commit_ch ++ es) ends in
    ap (λ es. view (apply_loop c es kv) key) sent
    ∙ ap (λ s. view s key) (apply_loop-last c m.commit_ch before e kv)
    ∙ put_view c key value e _ decoded
