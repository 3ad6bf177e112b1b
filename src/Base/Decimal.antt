-- ===== src/Base/Decimal.antt =====
-- A number's decimal text, as Python's `str` writes it and `int` reads it.
use Prim.Native.Char.{Char, code, nul}
use Prim.Native.Nat.{ℕ, zero, suc, ◌+◌, ◌-◌, ◌*◌, ◌/◌, ◌%◌, ◌≤◌, ◌<◌}
use Prim.Native.String.{String}
use mathlib.Core.Bool.{Bool, true, ◌&&◌}
use mathlib.Core.Logic.{◌≢◌, ◌⊎◌, inl, inr}
use mathlib.Core.Option.{Option, none, some}
use mathlib.Core.Path.{◌≡◌, refl, ap, subst, sym, ◌∙◌}
use native.Mathlib.Omega.{arith}
use hedloom.Base.Tests.{leb, str_eq, ◌==◌, if◌then◌else◌}

abbrev nth : String → ℕ → Char
nth String.[] n = nul
nth (String.◌∷◌ c s) zero = c
nth (String.◌∷◌ c s) (suc n) = nth s n

abbrev pub digit : ℕ → Char
digit = nth "0123456789"

-- The digits of `n` before `out`; fuel as large as `n` is more than there are digits.
unfoldable pub digits : ℕ → ℕ → String → String
digits zero n out = out
digits (suc fuel) n out =
    let longer = digits fuel (n / 10) (String.◌∷◌ (digit (n % 10)) out) in
    if n == 0 then out else longer

-- `str(n)`
unfoldable pub decimal : ℕ → String
decimal n = if n == 0 then "0" else digits n n ""

abbrev pub is_digit : Char → Bool
is_digit c = leb 48 (code c) && leb (code c) 57

-- `[0-9]*`, with the number that it reads after `n`
unfoldable pub scan : ℕ → String → Option ℕ
scan n String.[] = some n
scan n (String.◌∷◌ c s) = if is_digit c then scan (n * 10 + (code c - 48)) s else none

-- `0|[1-9][0-9]*`, with the number
unfoldable pub undecimal : String → Option ℕ
undecimal String.[] = none
undecimal (String.◌∷◌ c s) =
    if code c == 48 then (if str_eq s "" then some 0 else none) else scan 0 (String.◌∷◌ c s)

is_digit-digit :
    (n : ℕ) → (is_digit (digit (n % 10)) ≡ true) × (code (digit (n % 10)) ≡ 48 + n % 10)
is_digit-digit n = low (n % 10) (omega arith)
  where
    low : (d : ℕ) → d < 10 → (is_digit (digit d) ≡ true) × (code (digit d) ≡ 48 + d)
    low zero h = (refl, refl)
    low (suc zero) h = (refl, refl)
    low (suc (suc zero)) h = (refl, refl)
    low (suc (suc (suc zero))) h = (refl, refl)
    low (suc (suc (suc (suc zero)))) h = (refl, refl)
    low (suc (suc (suc (suc (suc zero))))) h = (refl, refl)
    low (suc (suc (suc (suc (suc (suc zero)))))) h = (refl, refl)
    low (suc (suc (suc (suc (suc (suc (suc zero))))))) h = (refl, refl)
    low (suc (suc (suc (suc (suc (suc (suc (suc zero)))))))) h = (refl, refl)
    low (suc (suc (suc (suc (suc (suc (suc (suc (suc zero))))))))) h = (refl, refl)
    low (suc (suc (suc (suc (suc (suc (suc (suc (suc (suc d)))))))))) h = absurd (omega arith)

one_digit :
    (fuel n : ℕ) (out : String)
    → 0 < n
    → digits (suc fuel) n out ≡ digits fuel (n / 10) (String.◌∷◌ (digit (n % 10)) out)
unfolding digits
one_digit fuel n out h = ground arith

no_digit : (fuel : ℕ) (out : String) → digits fuel 0 out ≡ out
unfolding digits
no_digit zero out = refl
no_digit (suc fuel) out = refl

scan_last : (n : ℕ) (out : String) → scan (n / 10) (String.◌∷◌ (digit (n % 10)) out) ≡ scan n out
unfolding scan
scan_last n out = rw ((is_digit-digit n).0) (ap (λ k. scan k out) (grind (arith, is_digit-digit n)))

compare-cases : (n : ℕ) → (n ≡ 0) ⊎ (0 < n)
compare-cases zero = inl refl
compare-cases (suc n) = inr (omega arith)

-- With enough fuel the digits that were written are read again.
scan-digits : (fuel n : ℕ) (out : String) → n ≤ fuel → scan 0 (digits fuel n out) ≡ scan n out
unfolding digits
scan-digits zero n out h = ap (λ m. scan m out) (omega arith)
scan-digits (suc fuel) n out h = elim (compare-cases n) [
  | inl p ↦
      ap (λ m. scan 0 (digits (suc fuel) m out)) p
      ∙ (ap (scan 0) (no_digit (suc fuel) out) ∙ ap (λ m. scan m out) (sym p))
  | inr p ↦
      ap (scan 0) (one_digit fuel n out p)
      ∙ (scan-digits fuel (n / 10) (String.◌∷◌ (digit (n % 10)) out) (omega arith)
          ∙ scan_last n out)
]

-- The first digit of a positive number is not zero.
digits-leading :
    (fuel n : ℕ) (out : String)
    → n ≤ fuel
    → 0 < n
    → (c : Char) × (s : String) × (digits fuel n out ≡ String.◌∷◌ c s) × (code c ≢ 48)
digits-leading zero n out h p = absurd (omega arith)
digits-leading (suc fuel) n out h p = elim (compare-cases (n / 10)) [
  | inl q ↦ (
    digit (n % 10),
    out,
    one_digit fuel n out p
        ∙ (ap (λ m. digits fuel m (String.◌∷◌ (digit (n % 10)) out)) q ∙ no_digit fuel _),
    grind (arith, is_digit-digit n),
  )
  | inr q ↦
      let rest = digits-leading fuel (n / 10) (String.◌∷◌ (digit (n % 10)) out) (omega arith) q in
      (rest.0, rest.1, one_digit fuel n out p ∙ rest.2, rest.3)
]

decimal_pos : (n : ℕ) → 0 < n → decimal n ≡ digits n n ""
unfolding decimal
decimal_pos n h = ground arith

undecimal_cons :
    (c : Char) (s : String) → code c ≢ 48 → undecimal (String.◌∷◌ c s) ≡ scan 0 (String.◌∷◌ c s)
unfolding undecimal
undecimal_cons c s h = ground arith

undecimal-digits : (n : ℕ) → 0 < n → undecimal (digits n n "") ≡ scan 0 (digits n n "")
undecimal-digits n h =
    let first = digits-leading n n "" (omega arith) h in
    subst (λ t. undecimal t ≡ scan 0 t) (sym first.2) (undecimal_cons first.0 first.1 first.3)

-- A number is read back from its text.
pub undecimal-decimal : (n : ℕ) → undecimal (decimal n) ≡ some n
unfolding undecimal decimal scan digits
undecimal-decimal n = elim (compare-cases n) [
  | inl p ↦ subst (λ m. undecimal (decimal m) ≡ some m) (sym p) refl
  | inr p ↦
      ap undecimal (decimal_pos n p) ∙ (undecimal-digits n p ∙ scan-digits n n "" (omega arith))
]
