-- ===== src/Text.antt =====
-- The functions of the C library on text that the program uses: strcmp, and %d and %u of printf.
pub mod Decimal
pub mod Scan
use Prim.Native.Char.{code}
use Prim.Native.String.{String}
use volans.Prelude.{
  ℕ, zero, suc, ◌+◌, ◌-◌, ◌*◌, ◌/◌, ◌%◌, ◌<◌, ◌^◌, Bool, true, false, Option, none, some, List, [],
  ◌∷◌, ◌++◌, ltb, ◌==◌, if◌then◌else◌,
}
use volans.Prelude.Int.{ℤ, pos, negsuc}

-- The bytes of an ASCII text.
abbrev pub codes : String → List ℕ
codes String.[] = []
codes (String.◌∷◌ c s) = code c ∷ codes s

-- The sign of a comparison, which is all that the C library promises of strcmp.
pub data Sign : Type 0 where
  less : Sign
  equal : Sign
  greater : Sign

abbrev pub is_equal : Sign → Bool
is_equal equal = true
is_equal _ = false

abbrev pub is_greater : Sign → Bool
is_greater greater = true
is_greater _ = false

abbrev pub compare : ℕ → ℕ → Sign
compare a b = if ltb a b then less else (if ltb b a then greater else equal)

abbrev pub then_by : Sign → Sign → Sign
then_by less s = less
then_by greater s = greater
then_by equal s = s

-- `strcmp` of texts without NUL, their bytes unsigned.
abbrev pub strcmp : List ℕ → List ℕ → Sign
strcmp [] [] = equal
strcmp [] (y ∷ ys) = less
strcmp (x ∷ xs) [] = greater
strcmp (x ∷ xs) (y ∷ ys) = then_by (compare x y) (strcmp xs ys)

-- The decimal digits of a number below 10 ^ (fuel + 1).
abbrev pub decimal_within : ℕ → ℕ → List ℕ
decimal_within zero n = (48 + n % 10) ∷ []
decimal_within (suc fuel) n =
    let front = decimal_within fuel (n / 10) in
    if ltb n 10 then (48 + n) ∷ [] else front ++ (48 + n % 10) ∷ []

-- `%u`, for a number of at most 64 bits.
unfoldable pub decimal : ℕ → List ℕ
decimal n = decimal_within 19 n

-- `%d`
abbrev pub decimal_ℤ : ℤ → List ℕ
decimal_ℤ (pos n) = decimal n
decimal_ℤ (negsuc n) = 45 ∷ decimal (suc n)

abbrev is_space : ℕ → Bool
is_space b = if b == 32 then true else (if ltb b 9 then false else ltb b 14)

abbrev pub is_digit : ℕ → Bool
is_digit b = if ltb b 48 then false else ltb b 58

-- The number that a run of digits at the front of a text adds to `n`.
abbrev pub scan_digits : ℕ → List ℕ → ℕ
scan_digits n [] = n
scan_digits n (b ∷ bs) =
    let more = scan_digits (10 * n + (b - 48)) bs in if is_digit b then more else n

abbrev starts_with_digit : List ℕ → Bool
starts_with_digit [] = false
starts_with_digit (b ∷ bs) = is_digit b

abbrev skip_space : List ℕ → List ℕ
skip_space [] = []
skip_space (b ∷ bs) = let rest = skip_space bs in if is_space b then rest else b ∷ bs

abbrev scan_sign : List ℕ → Bool × List ℕ
scan_sign [] = (false, [])
scan_sign (b ∷ bs) =
    if b == 45 then (true, bs) else (if b == 43 then (false, bs) else (false, b ∷ bs))

abbrev pub int_of_sign : Bool → ℕ → Option ℤ
int_of_sign false n = if ltb n (2 ^ 31) then some (pos n) else none
int_of_sign true zero = some (pos zero)
int_of_sign true (suc n) = if ltb n (2 ^ 31) then some (negsuc n) else none

abbrev scan_number : Bool × List ℕ → Option ℤ
scan_number (negative, text) =
    if starts_with_digit text then int_of_sign negative (scan_digits 0 text) else none

-- `%d` of scanf; `none` is a text without a number, or a number that is not an int.
abbrev pub scan_int : List ℕ → Option ℤ
scan_int text = scan_number (scan_sign (skip_space text))

abbrev atoi_number : Bool × List ℕ → Option ℤ
atoi_number (negative, text) = int_of_sign negative (scan_digits 0 text)

-- `atoi`: 0 if there is no number; `none` is a number that is not an int.
abbrev pub atoi : List ℕ → Option ℤ
atoi text = atoi_number (scan_sign (skip_space text))
