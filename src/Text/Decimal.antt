-- ===== src/Text/Decimal.antt =====
-- How strcmp orders the decimal texts of numbers.
use volans.Prelude.{
  ℕ, zero, suc, ◌+◌, ◌/◌, ◌%◌, ◌^◌, ◌<◌, ◌≡◌, refl, List, [], ◌∷◌, ◌++◌, length, length-append,
  arith,
}
use volans.Text.{equal, compare, then_by, strcmp, decimal_within}

-- Texts of one length that end in a byte each: the last bytes decide if nothing before does.
strcmp-snoc :
    (xs ys : List ℕ) (x y : ℕ)
    → length xs ≡ length ys
    → strcmp (xs ++ x ∷ []) (ys ++ y ∷ []) ≡ then_by (strcmp xs ys) (compare x y)
strcmp-snoc [] [] x y h = ground arith
strcmp-snoc [] (b ∷ ys) x y h = absurd (omega arith)
strcmp-snoc (a ∷ xs) [] x y h = absurd (omega arith)
strcmp-snoc (a ∷ xs) (b ∷ ys) x y h = ground (arith, strcmp-snoc xs ys x y)

pub strcmp_refl : (xs : List ℕ) → strcmp xs xs ≡ equal
strcmp_refl [] = refl
strcmp_refl (x ∷ xs) = ground (arith, strcmp_refl xs)

-- Texts that compare equal are the same.
pub strcmp_eq : (xs ys : List ℕ) → strcmp xs ys ≡ equal → xs ≡ ys
strcmp_eq [] [] h = refl
strcmp_eq [] (y ∷ ys) h = cc
strcmp_eq (x ∷ xs) [] h = cc
strcmp_eq (x ∷ xs) (y ∷ ys) h = ground (arith, strcmp_eq xs ys)

length-decimal_within : (fuel n : ℕ) → 0 < length (decimal_within fuel n)
length-decimal_within zero n = omega arith
length-decimal_within (suc fuel) n =
    ground (arith, length-append (decimal_within fuel (n / 10)) ((48 + n % 10) ∷ []))

-- The texts of two numbers, if they are as long as each other, are ordered as the numbers.
pub strcmp-decimal_within :
    (fuel a b : ℕ)
    → a < 10 ^ suc fuel
    → b < 10 ^ suc fuel
    → length (decimal_within fuel a) ≡ length (decimal_within fuel b)
    → strcmp (decimal_within fuel a) (decimal_within fuel b) ≡ compare a b
strcmp-decimal_within zero a b ha hb e = ground arith
strcmp-decimal_within (suc fuel) a b ha hb e = ground (
  arith,
  strcmp-decimal_within fuel (a / 10) (b / 10),
  strcmp-snoc (decimal_within fuel (a / 10)) (decimal_within fuel (b / 10)) (48 + a % 10)
      (48 + b % 10),
  length-append (decimal_within fuel (a / 10)) ((48 + a % 10) ∷ []),
  length-append (decimal_within fuel (b / 10)) ((48 + b % 10) ∷ []),
  length-decimal_within fuel (a / 10),
  length-decimal_within fuel (b / 10),
)
