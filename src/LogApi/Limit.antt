-- ===== src/LogApi/Limit.antt =====
-- server/log.go: the limit of a query, and how it is passed on.
use raftly.Common.{
  ℕ, zero, suc, ◌+◌, ◌*◌, ◌-◌, ◌/◌, ◌%◌, ◌^◌, ◌≤◌, ◌<◌, ◌≡◌, refl, sym, ◌∙◌, ap, [], ◌∷◌, ◌++◌,
  Option, none, some, false, ◌&&◌, Bytes, ltb, leb, ◌==◌, str_eq, if◌then◌else◌, Bool-cases,
  Option-cases, inl, inr, arith,
}
use raftly.Chaos.{decimal}
use raftly.LogApi.{digits, in_range, atoi, itoa, parse_limit}

-- The limit is between 1 and 200 when the one to fall back to is.
pub parse_limit_bounds :
    (s : Bytes) (fallback : ℕ)
    → 1 ≤ fallback
    → fallback ≤ 200
    → (1 ≤ parse_limit s fallback) × (parse_limit s fallback ≤ 200)
unfolding parse_limit
parse_limit_bounds s fallback low high = elim (Option-cases (atoi s)) [
  | inl bad ↦ rw (parse_limit, bad) (low, high)
  | inr (n, good) ↦ rw (parse_limit, good) (ground arith)
]

-- One digit more.
abbrev digit : ℕ → Option ℕ → Option ℕ
digit c none = none
digit c (some value) = if leb 48 c && leb c 57 then some (value * 10 + (c - 48)) else none

digits-append :
    (value : ℕ) (s : Bytes) (c : ℕ) → digits value (s ++ (c ∷ [])) ≡ digit c (digits value s)
digits-append value [] c = refl
digits-append value (d ∷ s) c = elim (Bool-cases (leb 48 d && leb d 57)) [
  | inl is_digit ↦ rw is_digit (digits-append (value * 10 + (d - 48)) s c)
  | inr other ↦ rw other refl
]

digits-decimal : (fuel n : ℕ) → n < fuel → digits 0 (decimal fuel n) ≡ some n
unfolding decimal
digits-decimal zero n h = absurd (omega (arith, h))
digits-decimal (suc fuel) n h = elim (Bool-cases (ltb n 10)) [
  | inl small ↦ rw (decimal, small) (ground arith)
  | inr large ↦
      let ih = digits-decimal fuel (n / 10) (ground arith) in
      rw (decimal, large)
        (digits-append 0 (decimal fuel (n / 10)) (48 + n % 10)
          ∙ ap (digit (48 + n % 10)) ih
          ∙ ground arith)
]

-- The first byte of a number is a digit.
starts :
    (fuel n : ℕ)
    → n < fuel
    → (c : ℕ) × (cs : Bytes) × (decimal fuel n ≡ c ∷ cs) × (48 ≤ c) × (c ≤ 57)
unfolding decimal
starts zero n h = absurd (omega (arith, h))
starts (suc fuel) n h = elim (Bool-cases (ltb n 10)) [
  | inl small ↦ (48 + n, [], rw (decimal, small) refl, omega arith, ground arith)
  | inr large ↦
      let (c, cs, starts_with, low, high) = starts fuel (n / 10) (ground arith) in
      (
        c,
        cs ++ ((48 + n % 10) ∷ []),
        rw (decimal, large) (ap (λ s. s ++ ((48 + n % 10) ∷ [])) starts_with),
        low,
        high,
      )
]

atoi-itoa : (n : ℕ) → n < 2 ^ 63 → atoi (itoa n) ≡ some n
unfolding atoi
atoi-itoa n small =
    let (c, cs, starts_with, low, high) = starts (suc n) n (omega arith) in
    let read = ap (digits 0) (sym starts_with) ∙ digits-decimal (suc n) n (omega arith) in
    let no_minus : (c == 45) ≡ false = ground arith in
    let no_plus : (c == 43) ≡ false = ground arith in
    ap atoi starts_with ∙ rw (atoi, no_minus, no_plus) (ap (in_range (2 ^ 63)) read ∙ ground arith)

-- A limit in range that one node writes into the query of a call to another is the limit that the
-- other reads, whatever the other falls back to.
pub limit_round_trip : (n fallback : ℕ) → 1 ≤ n → n ≤ 200 → parse_limit (itoa n) fallback ≡ n
unfolding parse_limit str_eq
limit_round_trip n fallback low high =
    let (c, cs, starts_with, _, _) = starts (suc n) n (omega arith) in
    let nonempty : str_eq (itoa n) [] ≡ false = ap (λ s. str_eq s []) starts_with in
    rw (parse_limit, atoi-itoa n (omega arith), nonempty) (ground arith)
