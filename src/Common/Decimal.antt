-- ===== src/Common/Decimal.antt =====
-- `strconv.Itoa`, and that `strconv.Atoi` reads it back.
use Prim.Native.Char.{Char, code}
use Prim.Native.Nat.{ℕ, zero, suc, ◌+◌, ◌-◌, ◌*◌, ◌/◌, ◌%◌, ◌^◌, ◌≤◌, ◌<◌}
use Prim.Native.String.{String}
use mathlib.Core.Bool.{Bool, true, false, ◌||◌}
use mathlib.Core.Option.{some}
use mathlib.Core.Logic.{inl, inr}
use mathlib.Core.Path.{◌≡◌, refl, ap, ◌∙◌}
use native.Mathlib.Omega.{arith}
use inferencia.Common.Tests.{if◌then◌else◌, ltb, leb, eqb, ltb→lt, Bool-cases}
use inferencia.Common.Int.{ℤ, pos, negsuc}
use inferencia.Common.Pieces.{join_text}
use inferencia.Common.Text.{digits, atoi, is_space, trim_left, trim_right, trim_space, until}

abbrev digit_char : ℕ → Char
digit_char zero = "0"
digit_char (suc zero) = "1"
digit_char (suc (suc zero)) = "2"
digit_char (suc (suc (suc zero))) = "3"
digit_char (suc (suc (suc (suc zero)))) = "4"
digit_char (suc (suc (suc (suc (suc zero))))) = "5"
digit_char (suc (suc (suc (suc (suc (suc zero)))))) = "6"
digit_char (suc (suc (suc (suc (suc (suc (suc zero))))))) = "7"
digit_char (suc (suc (suc (suc (suc (suc (suc (suc zero)))))))) = "8"
digit_char (suc (suc (suc (suc (suc (suc (suc (suc (suc n))))))))) = "9"

-- The digits of `n` before `rest`, the last one first; `fuel` counts the digits.
pub itoa_before : ℕ → ℕ → String → String
itoa_before zero n rest = rest
itoa_before (suc fuel) n rest =
    let more = itoa_before fuel (n / 10) (String.◌∷◌ (digit_char (n % 10)) rest) in
    if ltb n 10 then String.◌∷◌ (digit_char n) rest else more

-- `%d` of a number that is not negative; its digits are fewer than `n + 1`, or one.
unfoldable pub itoa : ℕ → String
unfolding itoa_before
itoa n = itoa_before (suc n) n ""

code-digit_char : (d : ℕ) → d < 10 → code (digit_char d) ≡ 48 + d
code-digit_char zero h = refl
code-digit_char (suc zero) h = refl
code-digit_char (suc (suc zero)) h = refl
code-digit_char (suc (suc (suc zero))) h = refl
code-digit_char (suc (suc (suc (suc zero)))) h = refl
code-digit_char (suc (suc (suc (suc (suc zero))))) h = refl
code-digit_char (suc (suc (suc (suc (suc (suc zero)))))) h = refl
code-digit_char (suc (suc (suc (suc (suc (suc (suc zero))))))) h = refl
code-digit_char (suc (suc (suc (suc (suc (suc (suc (suc zero)))))))) h = refl
code-digit_char (suc (suc (suc (suc (suc (suc (suc (suc (suc zero))))))))) h = refl
code-digit_char (suc (suc (suc (suc (suc (suc (suc (suc (suc (suc n)))))))))) h = omega arith

digits-digit :
    (d acc : ℕ) (rest : String)
    → d < 10
    → digits acc (String.◌∷◌ (digit_char d) rest) ≡ digits (acc * 10 + d) rest
digits-digit d acc rest h =
    let low : leb 48 (48 + d) ≡ true = ground arith in
    let high : leb (48 + d) 57 ≡ true = ground arith in
    let value : 48 + d - 48 ≡ d = omega arith in
    rw (code-digit_char d h) (rw (low, high, value) refl)

digits-itoa_before :
    (fuel n : ℕ) (rest : String) → n < fuel → digits 0 (itoa_before fuel n rest) ≡ digits n rest
unfolding itoa_before
digits-itoa_before zero n rest h = absurd (omega arith)
digits-itoa_before (suc fuel) n rest h = ground (
  arith,
  digits-digit n 0 rest,
  digits-digit (n % 10) (n / 10) rest,
  digits-itoa_before fuel (n / 10) (String.◌∷◌ (digit_char (n % 10)) rest),
)

-- A text that begins with a digit.
abbrev StartsWithDigit : String → Type 0
StartsWithDigit String.[] = ⊥
StartsWithDigit (String.◌∷◌ c s) = 48 ≤ code c × code c < 58

itoa_before_starts :
    (fuel n : ℕ) (rest : String) → n < fuel → StartsWithDigit (itoa_before fuel n rest)
unfolding itoa_before
itoa_before_starts zero n rest h = absurd (omega arith)
itoa_before_starts (suc fuel) n rest h = elim (Bool-cases (ltb n 10)) [
  | inl e ↦ let small = ltb→lt n 10 e in rw e (rw (code-digit_char n small) (omega arith))
  | inr e ↦
      rw e (itoa_before_starts fuel (n / 10) (String.◌∷◌ (digit_char (n % 10)) rest) (ground arith))
]

atoi-digits :
    (s : String) (n : ℕ)
    → StartsWithDigit s
    → digits 0 s ≡ some n
    → n < 2 ^ 63
    → atoi s ≡ some (pos n)
atoi-digits String.[] n h e b = absurd h
atoi-digits (String.◌∷◌ c s) n h e b = ground arith

-- Whatever the number, if it fits a 64-bit `int`, its decimal text is read back as it.
pub atoi-itoa : (n : ℕ) → n < 2 ^ 63 → atoi (itoa n) ≡ some (pos n)
unfolding itoa
atoi-itoa n b =
    atoi-digits (itoa_before (suc n) n "") n (itoa_before_starts (suc n) n "" (omega arith))
      (digits-itoa_before (suc n) n "" (omega arith)) b

-- A function that passes over digits passes over a number.
pub itoa_before-commutes :
    (f : String → String)
    → ((d : ℕ) (s : String)
        → d < 10
        → f (String.◌∷◌ (digit_char d) s) ≡ String.◌∷◌ (digit_char d) (f s))
    → (fuel n : ℕ) (rest : String) → n < fuel
    → f (itoa_before fuel n rest) ≡ itoa_before fuel n (f rest)
unfolding itoa_before
itoa_before-commutes f h zero n rest b = absurd (omega arith)
itoa_before-commutes f h (suc fuel) n rest b = elim (Bool-cases (ltb n 10)) [
  | inl e ↦ rw e (h n rest (ltb→lt n 10 e))
  | inr e ↦ rw e (
      itoa_before-commutes f h fuel (n / 10) (String.◌∷◌ (digit_char (n % 10)) rest) (ground arith)
      ∙ ap (itoa_before fuel (n / 10)) (h (n % 10) rest (omega arith)))
]

digit-not_space : (d : ℕ) → d < 10 → is_space (digit_char d) ≡ false
digit-not_space d h = rw (code-digit_char d h) (ground arith)

trim_left_digits : (s : String) → StartsWithDigit s → trim_left s ≡ s
trim_left_digits String.[] h = absurd h
trim_left_digits (String.◌∷◌ c s) h = ground arith

trim_space-itoa : (n : ℕ) → trim_space (itoa n) ≡ itoa n
unfolding itoa
trim_space-itoa n =
    ap trim_right
      (trim_left_digits (itoa_before (suc n) n "") (itoa_before_starts (suc n) n "" (omega arith)))
    ∙ itoa_before-commutes trim_right (λ d s h. rw (digit-not_space d h) refl) (suc n) n ""
        (omega arith)

-- The separators after a status.
abbrev pub ends_status : ℕ → Bool
ends_status c = eqb c b':' || eqb c b' '

until-digit :
    (d : ℕ) (s : String)
    → d < 10
    → until ends_status (String.◌∷◌ (digit_char d) s)
      ≡ String.◌∷◌ (digit_char d) (until ends_status s)
until-digit d s h =
    let other : ends_status (code (digit_char d)) ≡ false =
      rw (code-digit_char d h) (ground arith) in
    rw other refl

-- A number at the head of a text, up to a colon.
until-itoa :
    (n : ℕ) (rest : String) → until ends_status (join_text (itoa n) (String.◌∷◌ ":" rest)) ≡ itoa n
unfolding itoa
until-itoa n rest =
    ap (until ends_status) (
      itoa_before-commutes (λ s. join_text s (String.◌∷◌ ":" rest)) (λ d s h. refl) (suc n) n ""
        (omega arith))
    ∙ itoa_before-commutes (until ends_status) until-digit (suc n) n (String.◌∷◌ ":" rest)
        (omega arith)

-- The number before a colon is read.
pub atoi-until :
    (n : ℕ) (rest : String)
    → n < 2 ^ 63
    → atoi (trim_space (until ends_status (join_text (itoa n) (String.◌∷◌ ":" rest))))
      ≡ some (pos n)
atoi-until n rest b = rw (until-itoa n rest, trim_space-itoa n) (atoi-itoa n b)

-- `%d` of an integer.
abbrev pub itoa_ℤ : ℤ → String
itoa_ℤ (pos n) = itoa n
itoa_ℤ (negsuc n) = String.◌∷◌ "-" (itoa (suc n))
