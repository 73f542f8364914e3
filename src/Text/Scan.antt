-- ===== src/Text/Scan.antt =====
-- `atoi` of the text of a number.
use volans.Prelude.{
  ℕ, zero, suc, ◌+◌, ◌*◌, ◌-◌, ◌/◌, ◌%◌, ◌^◌, ◌≤◌, ◌<◌, ◌≡◌, refl, sym, ap, ◌∙◌, Bool, true, false,
  some, List, [], ◌∷◌, ◌++◌, if◌then◌else◌, ltb, arith, append_assoc,
}
use volans.Prelude.Int.{pos}
use volans.Text.{decimal, decimal_within, is_digit, scan_digits, int_of_sign, atoi}

-- A digit is a byte from 48 to 57.
is_digit-true : (b : ℕ) → 48 ≤ b → b < 58 → is_digit b ≡ true
is_digit-true b h k = ground arith

scan_step :
    (n : ℕ) (rest : List ℕ) → scan_digits (n / 10) ((48 + n % 10) ∷ rest) ≡ scan_digits n rest
scan_step n rest =
    ap (λ c. if c then scan_digits (10 * (n / 10) + (48 + n % 10 - 48)) rest else n / 10)
      (is_digit-true (48 + n % 10) (omega arith) (omega arith))
    ∙ ap (λ m. scan_digits m rest) (omega arith)

-- The digits of a number are scanned as that number.
scan_digits-decimal_within :
    (fuel n : ℕ) (rest : List ℕ)
    → n < 10 ^ suc fuel
    → scan_digits 0 (decimal_within fuel n ++ rest) ≡ scan_digits n rest
scan_digits-decimal_within zero n rest h =
    let front : 0 ≡ n / 10 = omega (arith, h) in
    ap (λ m. scan_digits m ((48 + n % 10) ∷ rest)) front ∙ scan_step n rest
scan_digits-decimal_within (suc fuel) n rest h =
    by_size (ltb n 10) refl (λ k. scan_digits-decimal_within fuel (n / 10) ((48 + n % 10) ∷ rest) k)
  where
    by_size :
        (c : Bool)
        → ltb n 10 ≡ c
        → (n / 10 < 10 ^ suc fuel
            → scan_digits 0 (decimal_within fuel (n / 10) ++ (48 + n % 10) ∷ rest)
              ≡ scan_digits (n / 10) ((48 + n % 10) ∷ rest))
        → scan_digits 0 (
            (if c then (48 + n) ∷ [] else decimal_within fuel (n / 10) ++ (48 + n % 10) ∷ [])
            ++ rest)
          ≡ scan_digits n rest
    by_size true e more =
        ap (λ c. if c then scan_digits (10 * 0 + (48 + n - 48)) rest else 0)
          (is_digit-true (48 + n) (omega arith) (ground (arith, e)))
        ∙ ap (λ m. scan_digits m rest) (omega arith)
    by_size false e more =
        ap (scan_digits 0) (append_assoc (decimal_within fuel (n / 10)) ((48 + n % 10) ∷ []) rest)
        ∙ more (omega (arith, h))
        ∙ scan_step n rest

starts_with-decimal_within :
    (fuel n : ℕ) (rest : List ℕ)
    → (d : ℕ) × (ds : List ℕ) × (decimal_within fuel n ++ rest ≡ d ∷ ds) × (48 ≤ d) × (d < 58)
starts_with-decimal_within zero n rest = (48 + n % 10, rest, refl, omega arith, omega arith)
starts_with-decimal_within (suc fuel) n rest =
    by_size (ltb n 10) refl (starts_with-decimal_within fuel (n / 10) ((48 + n % 10) ∷ rest))
  where
    by_size :
        (c : Bool)
        → ltb n 10 ≡ c
        → (d : ℕ) × (ds : List ℕ) × (decimal_within fuel (n / 10) ++ (48 + n % 10) ∷ rest ≡ d ∷ ds)
          × (48 ≤ d)
          × (d < 58)
        → (d : ℕ) × (ds : List ℕ) × ((if c
                then (48 + n) ∷ []
                else decimal_within fuel (n / 10) ++ (48 + n % 10) ∷ [])
              ++ rest
            ≡ d ∷ ds)
          × (48 ≤ d)
          × (d < 58)
    by_size true e front = (48 + n, rest, refl, omega arith, ground (arith, e))
    by_size false e (d, ds, f, l, g) =
        (d, ds, append_assoc (decimal_within fuel (n / 10)) ((48 + n % 10) ∷ []) rest ∙ f, l, g)

atoi_digits :
    (d : ℕ) (ds : List ℕ)
    → 48 ≤ d
    → d < 58
    → atoi (d ∷ ds) ≡ int_of_sign false (scan_digits 0 (d ∷ ds))
atoi_digits d ds l g = ground (arith, l, g)

scan_digits_end :
    (n letter : ℕ) (rest : List ℕ) → is_digit letter ≡ false → scan_digits n (letter ∷ rest) ≡ n
scan_digits_end n letter rest e =
    ap (λ c. if c then scan_digits (10 * n + (letter - 48)) rest else n) e

-- The text of an int that is not negative, with a letter behind it, is read as that int.
pub atoi-decimal :
    (n letter : ℕ) (rest : List ℕ)
    → n < 2 ^ 31
    → is_digit letter ≡ false
    → atoi (decimal n ++ letter ∷ rest) ≡ some (pos n)
unfolding decimal
atoi-decimal n letter rest h e =
    let (d, ds, f, l, g) = starts_with-decimal_within 19 n (letter ∷ rest) in
    ap atoi f
    ∙ atoi_digits d ds l g
    ∙ ap (λ t. int_of_sign false (scan_digits 0 t)) (sym f)
    ∙ ap (int_of_sign false) (
        scan_digits-decimal_within 19 n (letter ∷ rest) (omega (arith, h))
        ∙ scan_digits_end n letter rest e)
    ∙ ground (arith, h)
