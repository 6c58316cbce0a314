-- ===== src/Proxy/Rules.antt =====
-- transport/proxy.go: the first rule that matches decides.
use raftly.Common.{
  ◌≡◌, refl, ◌∙◌, ap, List, [], ◌∷◌, ◌++◌, append-nil, true, false, Bytes, All, Bool-cases, inl,
  inr, str_eq, str_eq_refl,
}
use raftly.Proxy.{
  ProxyRule, NetworkProxy, Roll, matches, verdict, decide, add_rule, without_id, remove_rule,
  should_deliver,
}

-- No rule of the list is about a message.
abbrev pub Silent : List ProxyRule → Bytes → Bytes → Type 0
Silent rules from to = All (λ r. matches r from to ≡ false) rules

pub decide-Silent :
    (roll : Roll) (quiet rules : List ProxyRule) (from to : Bytes)
    → Silent quiet from to
    → decide roll (quiet ++ rules) from to ≡ decide roll rules from to
unfolding decide
decide-Silent roll [] rules from to s = refl
decide-Silent roll (q ∷ quiet) rules from to s =
    rw (decide, s.0) (decide-Silent roll quiet rules from to s.1)

pub decide-matches :
    (roll : Roll) (rule : ProxyRule) (rules : List ProxyRule) (from to : Bytes)
    → matches rule from to ≡ true
    → decide roll (rule ∷ rules) from to ≡ verdict roll rule
unfolding decide
decide-matches roll rule rules from to m = rw (decide, m) refl

-- The rules are read in order: one that matches decides if none before it does, whatever follows
-- it; and a message that no rule is about is delivered at once.
first_match_decides :
    (roll : Roll) (before : List ProxyRule) (rule : ProxyRule) (later : List ProxyRule)
    (from to : Bytes)
    → Silent before from to
    → (matches rule from to ≡ true
        → should_deliver roll (record { rules = before ++ (rule ∷ later) }) from to
          ≡ verdict roll rule)
      × (should_deliver roll (record { rules = before }) from to ≡ (true, 0))
unfolding should_deliver decide
first_match_decides roll before rule later from to s = (
  λ m.
      decide-Silent roll before (rule ∷ later) from to s ∙ decide-matches roll rule later from to m,
  rw (← append-nil before) (decide-Silent roll before [] from to s),
)

-- No rule of the list has the ID.
abbrev pub IsFresh : Bytes → List ProxyRule → Type 0
IsFresh id rules = All (λ r. str_eq r.id id ≡ false) rules

pub without_id-append :
    (id : Bytes) (rs qs : List ProxyRule)
    → without_id id (rs ++ qs) ≡ without_id id rs ++ without_id id qs
without_id-append id [] qs = refl
without_id-append id (r ∷ rs) qs = elim (Bool-cases (str_eq r.id id)) [
  | inl same ↦ rw same (without_id-append id rs qs)
  | inr other ↦ rw other (ap (λ t. r ∷ t) (without_id-append id rs qs))
]

pub without_id-IsFresh : (id : Bytes) (rs : List ProxyRule) → IsFresh id rs → without_id id rs ≡ rs
without_id-IsFresh id [] f = refl
without_id-IsFresh id (r ∷ rs) f = rw f.0 (ap (λ t. r ∷ t) (without_id-IsFresh id rs f.1))

-- To remove a rule takes back its addition when no other rule has its ID.
remove_rule-add_rule :
    (rule : ProxyRule) (p : NetworkProxy)
    → IsFresh rule.id p.rules
    → remove_rule rule.id (add_rule rule p) ≡ p
unfolding remove_rule add_rule
remove_rule-add_rule rule p f =
    let gone : without_id rule.id (rule ∷ []) ≡ [] = rw (str_eq_refl rule.id) refl in
    let of_rules : List ProxyRule → NetworkProxy = λ rs. record { rules = rs } in
    ap of_rules (
      without_id-append rule.id p.rules (rule ∷ [])
      ∙ rw (gone, append-nil (without_id rule.id p.rules)) (without_id-IsFresh rule.id p.rules f))
