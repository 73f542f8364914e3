-- ===== src/Duration/Buffer.antt =====
-- `digits_in_number` and the buffer of `duration2string`.
use volans.Prelude.{
  ℕ, zero, suc, ◌+◌, ◌/◌, ◌%◌, ◌^◌, ◌≤◌, ◌<◌, ◌≡◌, refl, sym, ◌∙◌, ap, Bool, true, false, List, [],
  ◌∷◌, ◌++◌, if◌then◌else◌, ◌==◌, length, length-append, take, arith,
}
use volans.Prelude.Int.{ℤ}
use volans.Text.{decimal, decimal_within}
use volans.Marshalling.{word}
use volans.Marshalling.Integer.{word-lt}
use volans.Duration.{
  Duration, digits_from, digits_in_number, numbered, room, has_time, duration2string,
  duration2string_size,
}

digits_from_zero : (fuel : ℕ) → digits_from fuel 0 ≡ 0
digits_from_zero zero = refl
digits_from_zero (suc fuel) = refl

length-decimal_within :
    (fuel full n : ℕ)
    → fuel ≤ full
    → n < 10 ^ fuel
    → 0 < n
    → length (decimal_within full n) ≡ digits_from fuel n
length-decimal_within zero full n f h p = absurd (omega arith)
length-decimal_within (suc fuel) zero n f h p = absurd (omega arith)
length-decimal_within (suc fuel) (suc full) n f h p = ground (
  arith,
  digits_from_zero fuel,
  length-decimal_within fuel full (n / 10),
  length-append (decimal_within full (n / 10)) ((48 + n % 10) ∷ []),
)

digits_of : (w : ℕ) → w < 10 ^ 10 → (if w == 0 then 1 else digits_from 10 w) ≡ length (decimal w)
unfolding decimal
digits_of zero h = refl
digits_of (suc n) h =
    let nonzero : (suc n == 0) ≡ false = ground arith in
    ap (λ b. if b then 1 else digits_from 10 (suc n)) nonzero
    ∙ sym (length-decimal_within 10 19 (suc n) (omega arith) h (omega arith))

-- `digits_in_number` is the number of digits that %u writes.
pub digits_in_number_lem : (z : ℤ) → digits_in_number z ≡ length (decimal (word z))
unfolding digits_in_number
digits_in_number_lem z = digits_of (word z) (omega (arith, word-lt z))

pub take_all : (xs : List ℕ) (n : ℕ) → length xs ≤ n → take n xs ≡ xs
take_all [] zero h = refl
take_all [] (suc n) h = refl
take_all (x ∷ xs) zero h = absurd (omega arith)
take_all (x ∷ xs) (suc n) h = ap (λ r. x ∷ r) (take_all xs n (omega arith))

pub length-numbered :
    (shown : Bool) (z : ℤ) (letter : ℕ) → length (numbered shown z letter) ≡ room shown z
unfolding numbered room
length-numbered true z letter =
    let whole = length-append (decimal (word z)) (letter ∷ []) in
    let fits = digits_in_number_lem z in
    ap length (
      take_all (decimal (word z) ++ letter ∷ []) (digits_in_number z + 1)
        (omega (arith, whole, fits)))
    ∙ omega (arith, whole, fits)
length-numbered false z letter = refl

length-mark : (b : Bool) → length {A = ℕ} (if b then 84 ∷ [] else []) ≡ (if b then 1 else 0)
length-mark true = refl
length-mark false = refl

-- The text of a duration and its NUL fill exactly the buffer that duration2string allocates for
-- it.
pub length-duration2string :
    (d : Duration) → length (duration2string d) + 1 ≡ duration2string_size d
unfolding duration2string duration2string_size
length-duration2string d =
    let mark = length-mark (has_time d) in
    omega (arith, length-append {A = ℕ}, length-numbered, mark)
