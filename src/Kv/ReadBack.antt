-- ===== src/Kv/ReadBack.antt =====
-- server/api.go over raft/: from a PUT through the log and the state machine to a GET.
use raftly.Common.{
  ℕ, zero, suc, ◌+◌, ◌-◌, ◌^◌, ◌≤◌, ◌<◌, ◌≡◌, ◌≢◌, refl, sym, ◌∙◌, ap, List, [], ◌∷◌, ◌++◌, some,
  true, Bytes, get_elem?, take, drop, get_elem?-take, get_elem?-drop, str_eq_refl, inl, arith,
}
use raftly.Log.{LogEntry, RaftLog, get_entry, last_index}
use raftly.Log.Shape.{IsWellFormed}
use raftly.Node.{Node, is_leader}
use raftly.Proposals.{proposed}
use raftly.Proposals.Accepted.{propose-Accepted}
use raftly.Machine.{Run}
use raftly.Machine.Moves.{Moved}
use raftly.Machine.Invariant.{Run-keeps_log}
use raftly.Kv.{
  Command, Codec, put_op, KvStore, Upstream, Request, key_value, awaiting, key_of, apply,
  apply_loop, handle_put, handle_get,
}
use raftly.Utf8.{IsUtf8}
use raftly.Kv.Text.{CodecLaws}
use raftly.Kv.Refines.{view, apply_command-perform}
use raftly.Kv.Handlers.{handle_get_iff}
use raftly.Kv.Writes.{handle_put-awaiting}

pub take_snoc {ℓ} :
    {A : Type ℓ} (j : ℕ) (xs : List A) {a : A}
    → get_elem? xs j ≡ some a
    → take (suc j) xs ≡ take j xs ++ a ∷ []
take_snoc j [] h = absurd (cc)
take_snoc zero (x ∷ xs) h = ground arith
take_snoc (suc j) (x ∷ xs) h = ap (λ t. x ∷ t) (take_snoc j xs h)

pub apply_loop-append :
    (c : Codec) (es fs : List LogEntry) (kv : KvStore)
    → apply_loop c (es ++ fs) kv ≡ apply_loop c fs (apply_loop c es kv)
unfolding apply_loop
apply_loop-append c [] fs kv = refl
apply_loop-append c (e ∷ es) fs kv = apply_loop-append c es fs (apply c e kv)

-- The entries up to an index, without the sentinel.
abbrev pub entries_to : ℕ → RaftLog → List LogEntry
entries_to index l = take index (drop 1 l.entries)

applied_last :
    (c : Codec) (l : RaftLog) (index : ℕ) (kv : KvStore) {e : LogEntry}
    → 0 < index
    → get_entry l index ≡ some e
    → apply_loop c (entries_to index l) kv ≡ apply c e (apply_loop c (entries_to (index - 1) l) kv)
unfolding get_entry apply_loop
applied_last c l zero kv pos found = absurd (omega arith)
applied_last c l (suc j) kv {e} pos found =
    let next : 1 + j ≡ suc j = omega arith in
    let back : suc j - 1 ≡ j = omega arith in
    let at : get_elem? (drop 1 l.entries) j ≡ some e =
      get_elem?-drop 1 j l.entries ∙ rw next found in
    rw (take_snoc j (drop 1 l.entries) at, back)
      (apply_loop-append c (take j (drop 1 l.entries)) (e ∷ []) kv)

committed_entry :
    {n m : Node} (index : ℕ) {e : LogEntry}
    → Moved n m
    → index ≤ n.log.commit_index
    → get_entry n.log index ≡ some e
    → get_entry m.log index ≡ some e
unfolding get_entry
committed_entry {n} {m} index v le found =
    sym (get_elem?-take (suc n.log.commit_index) m.log.entries index (omega arith))
    ∙ ap (λ es. get_elem? es index) v.committed
    ∙ get_elem?-take (suc n.log.commit_index) n.log.entries index (omega arith)
    ∙ found

pub put_view :
    (c : Codec) (key value : Bytes) (e : LogEntry) (kv : KvStore)
    → c.unmarshal e.payload ≡ some (record { op = put_op; key = key; value = value })
    → view (apply c e kv) key ≡ some value
unfolding apply
put_view c key value e kv decoded =
    rw (apply, decoded)
      (ap (λ f. f key) (apply_command-perform (record { op = put_op; key = key; value = value }) kv)
        ∙ rw (str_eq_refl put_op, str_eq_refl key) refl)

key_of-path : (req get : Request) → get.path ≡ req.path → key_of get ≡ key_of req
unfolding key_of
key_of-path req get p = ap (λ (q : Bytes). key_of (record get { path = q })) p

-- What a PUT that waits has proposed.
put_accepted :
    (up : Upstream) (c : Codec) (caller : ℕ) (kv : KvStore) (req : Request) (n later : Node)
    {m : Node} {index term : ℕ} {value : Bytes}
    → CodecLaws c
    → IsUtf8 (key_of req)
    → IsUtf8 value
    → c.body_value req.body ≡ some value
    → IsWellFormed later.log
    → last_index later.log + 1 < 2 ^ 64
    → handle_put up c caller kv req n later ≡ (m, awaiting index term)
    → IsWellFormed m.log
      × (key_of req ≢ [])
      × (0 < index)
      × ((e : LogEntry) × (get_entry m.log index ≡ some e)
          × (c.unmarshal e.payload
              ≡ some (record { op = put_op; key = key_of req; value = value })))
put_accepted up c caller kv req n later {m} {index} {term} {value} laws utf8_key utf8_value valid w
      small put =
    let (v, decoded, served, proposes) = handle_put-awaiting up c caller kv req n later put in
    let same : v ≡ value = (let q = sym decoded ∙ valid in cc) in
    let command : Bytes → Command = λ x. record { op = put_op; key = key_of req; value = x } in
    let a = propose-Accepted (c.marshal (command v)) caller later w small proposes in
    (
      a.0,
      served.1,
      omega (arith, a.2, w.commit_bound),
      (
        proposed (c.marshal (command v)) later,
        a.4,
        laws.unmarshal-marshal (command v) refl utf8_key (rw same utf8_value)
            ∙ ap (λ x. some (command x)) same,
      ),
    )

-- A PUT that waits has its entry in the log. If the entry is committed there at some later time,
-- then at any time after that the log still holds it, and a store that has applied the log up to
-- its index, whatever the store was before, has the value at the key; a node that leads then and has
-- that store answers a GET for the same path with the value.
pub put_is_read_back :
    (up : Upstream) (c : Codec) (caller : ℕ) (kv kv0 : KvStore) (req get : Request) (n later : Node)
    {m committed final : Node} {index term : ℕ} {value : Bytes}
    → CodecLaws c
    → IsUtf8 (key_of req)
    → IsUtf8 value
    → c.body_value req.body ≡ some value
    → IsWellFormed later.log
    → last_index later.log + 1 < 2 ^ 64
    → handle_put up c caller kv req n later ≡ (m, awaiting index term)
    → Run m committed
    → get_entry committed.log index ≡ get_entry m.log index
    → index ≤ committed.log.commit_index
    → Run committed final
    → is_leader final.state ≡ true
    → get.path ≡ req.path
    → handle_get up (apply_loop c (entries_to index final.log) kv0) get final
      ≡ key_value (key_of req) value
put_is_read_back up c caller kv kv0 req get n later {m} {committed} {final} {index} {term} {value}
      laws utf8_key utf8_value valid w small put run kept le run' leads path =
    let (w1, named, pos, (e, there, decoded)) =
      put_accepted up c caller kv req n later laws utf8_key utf8_value valid w small put in
    let w2 = (Run-keeps_log run w1).well_formed in
    let still = committed_entry index (Run-keeps_log run' w2) le (kept ∙ there) in
    let same_key = key_of-path req get path in
    let kv1 = apply_loop c (entries_to index final.log) kv0 in
    let value_is : view kv1 (key_of req) ≡ some value =
      ap (λ s. view s (key_of req)) (applied_last c final.log index kv0 pos still)
      ∙ put_view c (key_of req) value e _ decoded in
    (handle_get_iff up kv1 get final (key_of req) value).1 (
      inl ((leads, λ q. named (sym same_key ∙ q)), sym same_key, ap (view kv1) same_key ∙ value_is))
