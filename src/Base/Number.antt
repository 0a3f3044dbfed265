-- ===== src/Base/Number.antt =====
-- The decimal text of a number, as fmt prints it by %d.
use Prim.Native.Nat.{ℕ, zero, suc, ◌+◌, ◌-◌, ◌*◌, ◌/◌, ◌%◌, ◌<◌}
use Prim.Native.Char.{Char, code}
use Prim.Native.String.{String, [], ◌∷◌, ◌++◌}
use Prim.Native.String.append
use mathlib.Core.Bool.{Bool, true, false, ◌&&◌}
use mathlib.Core.Option.{Option, none, some}
use mathlib.Core.Path.{◌≡◌, refl, sym, ap, ◌∙◌}
use native.Mathlib.Omega.{arith}
use text.Mathlib.Text.{◌==◌}
use page_spy_api.Base.Tests.{==-false, ltb, leb, eqb, if◌then◌else◌}

abbrev at_place : ℕ → String → String
at_place n [] = ""
at_place zero (c ∷ s) = c ∷ []
at_place (suc n) (c ∷ s) = at_place n s

unfoldable digit : ℕ → String
digit n = at_place n "0123456789"

-- The digits of n in front of a text. Each round divides n by ten.
abbrev digits : ℕ → ℕ → String → String
digits zero n s = s
digits (suc fuel) n s =
    let more = digits fuel (n / 10) (digit (n % 10) ++ s) in if ltb n 10 then digit n ++ s else more

unfoldable pub decimal : ℕ → String
unfolding digit
decimal n = digits (n + 1) n ""

-- More rounds than the number are enough: any count of them above it gives the same digits.
digits_enough :
    (fuel other n : ℕ) (s : String) → n < fuel → n < other → digits fuel n s ≡ digits other n s
digits_enough zero other n s h k = absurd (omega arith)
digits_enough (suc fuel) zero n s h k = absurd (omega arith)
digits_enough (suc fuel) (suc other) n s h k =
    ground (arith, digits_enough fuel other (n / 10) (digit (n % 10) ++ s))

abbrev is_digit : Char → Bool
is_digit c = leb 48 (code c) && leb (code c) 57

-- The number that a text of digits behind those of another number stands for.
abbrev read : ℕ → String → Option ℕ
read n [] = some n
read n (c ∷ s) = let rest = read (n * 10 + (code c - 48)) s in if is_digit c then rest else none

-- The text begins with a digit.
abbrev begins : String → Bool
begins [] = false
begins (c ∷ s) = is_digit c

abbrev Reads : ℕ → ℕ → String → Type 0
Reads n d s = (read n (digit d ++ s) ≡ read (n * 10 + d) s) × (begins (digit d ++ s) ≡ true)

Reads-digit : (n d : ℕ) (s : String) → d < 10 → Reads n d s
unfolding digit
Reads-digit n zero s h = rw (append.cons, append.nil) (refl, refl)
Reads-digit n (suc zero) s h = rw (append.cons, append.nil) (refl, refl)
Reads-digit n (suc (suc zero)) s h = rw (append.cons, append.nil) (refl, refl)
Reads-digit n (suc (suc (suc zero))) s h = rw (append.cons, append.nil) (refl, refl)
Reads-digit n (suc (suc (suc (suc zero)))) s h = rw (append.cons, append.nil) (refl, refl)
Reads-digit n (suc (suc (suc (suc (suc zero))))) s h = rw (append.cons, append.nil) (refl, refl)
Reads-digit n (suc (suc (suc (suc (suc (suc zero)))))) s h =
    rw (append.cons, append.nil) (refl, refl)
Reads-digit n (suc (suc (suc (suc (suc (suc (suc zero))))))) s h =
    rw (append.cons, append.nil) (refl, refl)
Reads-digit n (suc (suc (suc (suc (suc (suc (suc (suc zero)))))))) s h =
    rw (append.cons, append.nil) (refl, refl)
Reads-digit n (suc (suc (suc (suc (suc (suc (suc (suc (suc zero))))))))) s h =
    rw (append.cons, append.nil) (refl, refl)
Reads-digit n (suc (suc (suc (suc (suc (suc (suc (suc (suc (suc d)))))))))) s h =
    absurd (omega arith)

read-digits : (fuel n : ℕ) (s : String) → n < fuel → read 0 (digits fuel n s) ≡ read n s
read-digits zero n s h = absurd (omega arith)
read-digits (suc fuel) n s h = ground (
  arith,
  Reads-digit 0 n s,
  Reads-digit (n / 10) (n % 10) s,
  read-digits fuel (n / 10) (digit (n % 10) ++ s),
)

begins-digits : (fuel n : ℕ) (s : String) → n < fuel → begins (digits fuel n s) ≡ true
begins-digits zero n s h = absurd (omega arith)
begins-digits (suc fuel) n s h =
    ground (arith, Reads-digit 0 n s, begins-digits fuel (n / 10) (digit (n % 10) ++ s))

-- The decimal text of a number stands for it.
read-decimal : (n : ℕ) → read 0 (decimal n) ≡ some n
unfolding decimal
read-decimal n = read-digits (n + 1) n "" (omega arith)

begins-decimal : (n : ℕ) → begins (decimal n) ≡ true
unfolding decimal
begins-decimal n = begins-digits (n + 1) n "" (omega arith)

abbrev or_zero : Option ℕ → ℕ
or_zero none = 0
or_zero (some n) = n

pub decimal-injective : (m n : ℕ) → decimal m ≡ decimal n → m ≡ n
decimal-injective m n e = ap or_zero (sym (read-decimal m) ∙ ap (read 0) e ∙ read-decimal n)

abbrev within : ℕ → ℕ → Option ℕ
within bound n = if ltb n bound then some n else none

abbrev negated : Option ℕ → Option ℕ
negated none = none
negated (some n) = some ((18446744073709551616 - n) % 18446744073709551616)

abbrev bounded : ℕ → Option ℕ → Option ℕ
bounded bound none = none
bounded bound (some n) = within bound n

-- The digits of a text that is not empty
abbrev unsigned : String → Option ℕ
unsigned [] = none
unsigned (c ∷ s) = read 0 (c ∷ s)

-- strconv.Atoi, and ParseInt in base 10: the 64 bits of the number, or none for its error.
unfoldable pub atoi : String → Option ℕ
atoi [] = none
atoi (c ∷ s) =
    if eqb (code c) 45
    then negated (bounded 9223372036854775809 (unsigned s))
    else if eqb (code c) 43
    then bounded 9223372036854775808 (unsigned s)
    else bounded 9223372036854775808 (read 0 (c ∷ s))

atoi_unsigned : (s : String) → begins s ≡ true → atoi s ≡ bounded 9223372036854775808 (read 0 s)
unfolding atoi
atoi_unsigned [] h = absurd cc
atoi_unsigned (c ∷ s) h = ground arith

-- The text of a number that an int holds is read back.
pub atoi-decimal : (n : ℕ) → n < 9223372036854775808 → atoi (decimal n) ≡ some n
atoi-decimal n h =
    atoi_unsigned (decimal n) (begins-decimal n)
    ∙ ap (bounded 9223372036854775808) (read-decimal n)
    ∙ ground arith

not_empty : (s : String) → begins s ≡ true → (s == "") ≡ false
not_empty [] h = absurd cc
not_empty (c ∷ s) h = ==-false (c ∷ s) "" λ e. cc

pub decimal-ne-empty : (n : ℕ) → (decimal n == "") ≡ false
decimal-ne-empty n = not_empty (decimal n) (begins-decimal n)
