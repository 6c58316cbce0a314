-- ===== src/Http.antt =====
-- server/chaos.go, server/config.go and server/log.go: what they share, the calls from one node's
-- server to the others'. A call is `http.DefaultClient.Do` on a request to a peer's address.
pub mod Calls
use raftly.Common.{
  ℕ, List, [], ◌∷◌, Option, none, some, Bool, true, false, not, ◌||◌, ◌&&◌, Bytes, ltb, str_eq,
  if◌then◌else◌,
}

-- A response of 200 with what it carries, or an error's status.
pub data Reply (A : Type 0) : Type 0 where
  accepted : A → Reply A
  refused : (code : ℕ) → Reply A

-- What becomes of an HTTP call: it does not arrive, its response does not, or both do.
pub data Delivery : Type 0 where
  lost unanswered returned : Delivery

-- The API of the node that handles a request, and what serves at the addresses of the others.
pub record Nodes (S : Type 0) : Type 0 where
  pub api : S
  pub servers : Bytes → Option S

abbrev pub set_server : {S : Type 0} → Bytes → S → (Bytes → Option S) → Bytes → Option S
set_server address api servers a = if str_eq address a then some api else servers a

abbrev pub http_address : Bytes → List (Bytes × Bytes) → Option Bytes
http_address id [] = none
http_address id (p ∷ ps) = let rest = http_address id ps in if str_eq p.0 id then some p.1 else rest

-- `sort.Strings`
abbrev pub str_lt : Bytes → Bytes → Bool
str_lt s [] = false
str_lt [] (d ∷ t) = true
str_lt (c ∷ s) (d ∷ t) = let rest = str_lt s t in ltb c d || (not (ltb d c) && rest)

abbrev pub insert_string : Bytes → List Bytes → List Bytes
insert_string s [] = s ∷ []
insert_string s (t ∷ ts) =
    let rest = insert_string s ts in if str_lt t s then t ∷ rest else s ∷ t ∷ ts

abbrev pub sort_strings : List Bytes → List Bytes
sort_strings [] = []
sort_strings (s ∷ ss) = insert_string s (sort_strings ss)

abbrev pub ids_of : List (Bytes × Bytes) → List Bytes
ids_of [] = []
ids_of (p ∷ ps) = p.0 ∷ ids_of ps

-- A call that changes the server at a peer's address; `none` is an error.
abbrev pub call :
    {S : Type 0} {A : Type 0}
    → (Bytes → Delivery)
    → Bytes
    → (S → S × Reply A)
    → Nodes S
    → Nodes S × Option A
call net address handler s = elim (s.servers address) [
  | none ↦ (s, none)
  | some server ↦
      let (after, reply) = handler server in
      let served = record s { servers = set_server address after s.servers } in
      elim (net address) [
        | lost ↦ (s, none)
        | unanswered ↦ (served, none)
        | returned ↦ elim reply [ accepted x ↦ (served, some x) | refused code ↦ (served, none) ]
      ]
]
