-- ===== src/Duration/Letters.antt =====
-- Where the letters of a duration are found in its text.
use volans.Prelude.{
  ℕ, zero, suc, ◌+◌, ◌/◌, ◌%◌, ◌^◌, ◌≤◌, ◌<◌, ◌≡◌, refl, ap, ◌∙◌, Bool, true, false, Option, none,
  some, List, [], ◌∷◌, ◌++◌, ◌==◌, if◌then◌else◌, length, length-append, arith, All, All-append,
  append_assoc, ltb,
}
use volans.Prelude.Int.{pos}
use volans.Text.{decimal, decimal_within}
use volans.Marshalling.{word}
use volans.Duration.{digits_from, digits_in_number, numbered, room}
use volans.Duration.Buffer.{take_all, digits_in_number_lem, length-numbered}
use volans.Duration.Parse.{strchr, strrchr, last_or}

abbrev IsBelow : ℕ → Type 0
IsBelow b = b < 58

decimal_within-IsBelow : (fuel n : ℕ) → All IsBelow (decimal_within fuel n)
decimal_within-IsBelow zero n = (omega arith, tt)
decimal_within-IsBelow (suc fuel) n = by_size (ltb n 10) refl (
    All-append IsBelow (decimal_within fuel (n / 10)) ((48 + n % 10) ∷ [])
      (decimal_within-IsBelow fuel (n / 10)) (omega arith, tt))
  where
    by_size :
        (c : Bool)
        → ltb n 10 ≡ c
        → All IsBelow (decimal_within fuel (n / 10) ++ (48 + n % 10) ∷ [])
        → All IsBelow
            (if c then (48 + n) ∷ [] else decimal_within fuel (n / 10) ++ (48 + n % 10) ∷ [])
    by_size true e h = (ground (arith, e), tt)
    by_size false e h = h

-- A number that is shown is its digits and its letter.
pub numbered_shown :
    (n letter : ℕ) (rest : List ℕ)
    → n < 2 ^ 31
    → numbered true (pos n) letter ++ rest ≡ decimal n ++ letter ∷ rest
unfolding numbered
numbered_shown n letter rest h =
    let small : word (pos n) ≡ n = omega (arith, h) in
    let whole = length-append (decimal (word (pos n))) (letter ∷ []) in
    let fits = digits_in_number_lem (pos n) in
    ap (λ t. t ++ rest)
      (take_all (decimal (word (pos n)) ++ letter ∷ []) (digits_in_number (pos n) + 1)
        (omega (arith, whole, fits)))
    ∙ append_assoc (decimal (word (pos n))) (letter ∷ []) rest
    ∙ ap (λ m. decimal m ++ letter ∷ rest) small

strchr-append :
    (b : ℕ) (ds rest : List ℕ) → 58 ≤ b → All IsBelow ds → strchr b (ds ++ rest) ≡ strchr b rest
strchr-append b [] rest h ds = refl
strchr-append b (d ∷ ds) rest h (below, more) = ground (arith, strchr-append b ds rest h more)

pub strchr_cons : (b c : ℕ) (rest : List ℕ) → (c == b) ≡ false → strchr b (c ∷ rest) ≡ strchr b rest
strchr_cons b c rest e = ap (λ t. if t then some (c ∷ rest) else strchr b rest) e

pub strrchr_cons :
    (b c : ℕ) (rest : List ℕ) → (c == b) ≡ false → strrchr b (c ∷ rest) ≡ strrchr b rest
strrchr_cons b c rest e =
    ap (λ t. last_or (strrchr b rest) t (c ∷ rest)) e ∙ by_case (strrchr b rest) (c ∷ rest)
  where
    by_case : (o : Option (List ℕ)) (text : List ℕ) → last_or o false text ≡ o
    by_case none text = refl
    by_case (some x) text = refl

strrchr-append :
    (b : ℕ) (ds rest : List ℕ) → 58 ≤ b → All IsBelow ds → strrchr b (ds ++ rest) ≡ strrchr b rest
strrchr-append b [] rest h ds = refl
strrchr-append b (d ∷ ds) rest h (below, more) =
    strrchr_cons b d (ds ++ rest) (ground arith) ∙ strrchr-append b ds rest h more

-- A field with another letter is passed over.
pub strchr-numbered :
    (shown : Bool) (n letter b : ℕ) (rest : List ℕ)
    → n < 2 ^ 31
    → 58 ≤ b
    → (letter == b) ≡ false
    → strchr b (numbered shown (pos n) letter ++ rest) ≡ strchr b rest
unfolding numbered decimal
strchr-numbered true n letter b rest h l e =
    ap (strchr b) (numbered_shown n letter rest h)
    ∙ strchr-append b (decimal n) (letter ∷ rest) l (decimal_within-IsBelow 19 n)
    ∙ strchr_cons b letter rest e
strchr-numbered false n letter b rest h l e = refl

pub strrchr-numbered :
    (shown : Bool) (n letter b : ℕ) (rest : List ℕ)
    → n < 2 ^ 31
    → 58 ≤ b
    → (letter == b) ≡ false
    → strrchr b (numbered shown (pos n) letter ++ rest) ≡ strrchr b rest
unfolding numbered decimal
strrchr-numbered true n letter b rest h l e =
    ap (strrchr b) (numbered_shown n letter rest h)
    ∙ strrchr-append b (decimal n) (letter ∷ rest) l (decimal_within-IsBelow 19 n)
    ∙ strrchr_cons b letter rest e
strrchr-numbered false n letter b rest h l e = refl

-- The letter of a field that is shown is found.
pub strchr-numbered_found :
    (n letter : ℕ) (rest : List ℕ)
    → n < 2 ^ 31
    → 58 ≤ letter
    → strchr letter (numbered true (pos n) letter ++ rest) ≡ some (letter ∷ rest)
unfolding decimal
strchr-numbered_found n letter rest h l =
    ap (strchr letter) (numbered_shown n letter rest h)
    ∙ strchr-append letter (decimal n) (letter ∷ rest) l (decimal_within-IsBelow 19 n)
    ∙ ground arith

pub strrchr-numbered_found :
    (n letter : ℕ) (rest : List ℕ)
    → n < 2 ^ 31
    → 58 ≤ letter
    → strrchr letter rest ≡ none
    → strrchr letter (numbered true (pos n) letter ++ rest) ≡ some (letter ∷ rest)
unfolding decimal
strrchr-numbered_found n letter rest h l e =
    ap (strrchr letter) (numbered_shown n letter rest h)
    ∙ strrchr-append letter (decimal n) (letter ∷ rest) l (decimal_within-IsBelow 19 n)
    ∙ ground (arith, e)

digits_from_le : (fuel n : ℕ) → digits_from fuel n ≤ fuel
digits_from_le zero n = omega arith
digits_from_le (suc fuel) n = ground (arith, digits_from_le fuel (n / 10))

pub length-numbered_le : (shown : Bool) (n letter : ℕ) → length (numbered shown (pos n) letter) ≤ 11
unfolding room digits_in_number
length-numbered_le shown n letter =
    ground (arith, length-numbered shown (pos n) letter, digits_from_le 10 (word (pos n)))
