-- ===== src/Prelude/Text.antt =====
-- strings.Cut, and strconv.FormatInt and ParseInt to the base ten.
use Prim.Native.Nat.{ℕ, zero, suc, ◌+◌, ◌-◌, ◌*◌, ◌<◌, ◌/◌, ◌%◌, ◌^◌}
use mathlib.Core.Path.{◌≡◌, refl, sym, ◌∙◌}
use mathlib.Core.Logic.{inl, inr}
use mathlib.Core.Bool.{Bool, true, ◌&&◌, not}
use mathlib.Core.Option.{Option, none, some}
use mathlib.Core.List.{[], ◌∷◌, ◌++◌}
use native.Mathlib.Omega.{arith}
use forge_sync.Prelude.Bytes.{Str}
use forge_sync.Prelude.Lists.{all}
use forge_sync.Prelude.Tests.{ltb, leb, ◌==◌, if◌then◌else◌, Bool-cases}

-- strings.Cut at a byte: what stands before the first one, and what stands after it.
unfoldable pub cut : ℕ → Str → Str × Option Str
cut sep [] = ([], none)
cut sep (c ∷ s) =
    let (before, after) = cut sep s in if c == sep then ([], some s) else (c ∷ before, after)

-- Text up to the first such byte is cut off there.
pub cut-append :
    (sep : ℕ) (s t : Str)
    → all (λ c. not (c == sep)) s ≡ true
    → cut sep (s ++ sep ∷ t) ≡ (s, some t)
unfolding cut all
cut-append sep [] t h = ground arith
cut-append sep (c ∷ s) t h = rw (cut-append sep s t (ground arith)) (ground arith)

-- The digits of a number in front of others, on more fuel than the number.
unfoldable pub digits_on : ℕ → ℕ → Str → Str
digits_on zero n rest = rest
digits_on (suc k) n rest =
    let more = digits_on k (n / 10) ((48 + n % 10) ∷ rest) in
    if ltb n 10 then (48 + n) ∷ rest else more

-- strconv.FormatInt of a number that is not negative.
unfoldable pub format_int : ℕ → Str
format_int n = digits_on (suc n) n []

pub data Parsed : Type 0 where
  number : ℕ → Parsed
  -- Below zero, too large for 63 bits and a sign, or no number at all.
  below_zero out_of_range no_number : Parsed

unfoldable pub is_digit : ℕ → Bool
is_digit c = leb 48 c && leb c 57

-- Digits after a number so far.
unfoldable pub digits_from : ℕ → Str → Option ℕ
digits_from n [] = some n
digits_from n (c ∷ s) =
    let rest = digits_from (n * 10 + (c - 48)) s in if is_digit c then rest else none

-- One digit at least.
unfoldable pub digits_of : Str → Option ℕ
digits_of [] = none
digits_of (c ∷ s) = digits_from 0 (c ∷ s)

unfoldable pub in_range : Option ℕ → Parsed
in_range none = no_number
in_range (some n) = if ltb n (2 ^ 63) then number n else out_of_range

unfoldable pub negated : Option ℕ → Parsed
negated none = no_number
negated (some zero) = number 0
negated (some (suc n)) = if leb (suc n) (2 ^ 63) then below_zero else out_of_range

-- strconv.ParseInt(s, 10, 64), and strconv.Atoi where an int has 64 bits.
unfoldable pub parse_int : Str → Parsed
parse_int [] = no_number
parse_int (c ∷ s) =
    if c == b'-'
    then negated (digits_of s)
    else if c == b'+'
    then in_range (digits_of s)
    else in_range (digits_of (c ∷ s))

digits_from-digits_on :
    (k n : ℕ) (rest : Str) → n < k → digits_from 0 (digits_on k n rest) ≡ digits_from n rest
unfolding digits_on digits_from is_digit
digits_from-digits_on zero n rest h = ground arith
digits_from-digits_on (suc k) n rest h = elim (Bool-cases (ltb n 10)) [
  | inl e ↦ rw e (ground arith)
  | inr e ↦
      rw e (digits_from-digits_on k (n / 10) ((48 + n % 10) ∷ rest) (ground arith) ∙ ground arith)
]

-- What is written starts with a digit, and has only digits.
digits_on-is_digit :
    (k n : ℕ) (rest : Str)
    → n < k
    → all is_digit rest ≡ true
    → all is_digit (digits_on k n rest) ≡ true
unfolding digits_on is_digit all
digits_on-is_digit zero n rest h r = ground arith
digits_on-is_digit (suc k) n rest h r = elim (Bool-cases (ltb n 10)) [
  | inl e ↦ rw e (ground arith)
  | inr e ↦
      rw e (digits_on-is_digit k (n / 10) ((48 + n % 10) ∷ rest) (ground arith) (ground arith))
]

pub format_int-is_digit : (n : ℕ) → all is_digit (format_int n) ≡ true
unfolding format_int all
format_int-is_digit n = digits_on-is_digit (suc n) n [] (omega arith) refl

parse_int-digits :
    (s : Str) (n : ℕ)
    → all is_digit s ≡ true
    → digits_of s ≡ some n
    → n < 2 ^ 63
    → parse_int s ≡ number n
unfolding parse_int in_range is_digit all
parse_int-digits [] n a d h = unfold digits_of in cc
parse_int-digits (c ∷ s) n a d h = rw d (ground arith)

-- Something is written.
digits_on-nonempty :
    (k n : ℕ) (rest : Str)
    → n < k
    → digits_from 0 (digits_on k n rest) ≡ digits_of (digits_on k n rest)
unfolding digits_on digits_of
digits_on-nonempty zero n rest h = ground arith
digits_on-nonempty (suc k) n rest h = elim (Bool-cases (ltb n 10)) [
  | inl e ↦ rw e refl
  | inr e ↦ rw e (digits_on-nonempty k (n / 10) ((48 + n % 10) ∷ rest) (ground arith))
]

pub digits_of-format_int : (n : ℕ) → digits_of (format_int n) ≡ some n
unfolding format_int digits_from
digits_of-format_int n =
    sym (digits_on-nonempty (suc n) n [] (omega arith))
    ∙ digits_from-digits_on (suc n) n [] (omega arith)

pub parse_int-format_int : (n : ℕ) → n < 2 ^ 63 → parse_int (format_int n) ≡ number n
parse_int-format_int n h =
    parse_int-digits (format_int n) n (format_int-is_digit n) (digits_of-format_int n) h
