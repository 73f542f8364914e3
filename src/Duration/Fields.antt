-- ===== src/Duration/Fields.antt =====
-- The date of a duration's text, and its time, as `duration_create_from_string` parses them.
use volans.Prelude.{
  ℕ, ◌+◌, ◌^◌, ◌≤◌, ◌<◌, ◌≡◌, refl, ap, ◌∙◌, Bool, true, false, none, some, List, ◌∷◌, ◌++◌, ◌==◌,
  length, length-append, ltb, arith,
}
use volans.Prelude.Int.{ℤ, pos}
use volans.Duration.{Duration, numbered}
use volans.Duration.Parse.{strchr, strrchr, Parse, parse_at, offset}
use volans.Text.{decimal}
use volans.Duration.Letters.{
  numbered_shown, strchr_cons, strrchr_cons, strchr-numbered, strrchr-numbered,
  strchr-numbered_found, strrchr-numbered_found, length-numbered_le,
}
use volans.Duration.Steps.{at_byte, Passes, field-Passes}

-- A field of a duration: its number, and whether it is shown, as it is if it is not 0.
pub record Field : Type 0 where
  pub n : ℕ
  pub shown : Bool
  pub small : n < 2 ^ 31
  pub silent : shown ≡ false → n ≡ 0

abbrev pub text_of : Field → ℕ → List ℕ → List ℕ
text_of f letter rest = numbered f.shown (pos f.n) letter ++ rest

-- Another letter is searched behind the field.
pub strchr-text_of :
    (f : Field) (letter b : ℕ) (rest : List ℕ)
    → 58 ≤ b
    → (letter == b) ≡ false
    → strchr b (text_of f letter rest) ≡ strchr b rest
strchr-text_of f letter b rest l e = strchr-numbered f.shown f.n letter b rest f.small l e

pub strrchr-text_of :
    (f : Field) (letter b : ℕ) (rest : List ℕ)
    → 58 ≤ b
    → (letter == b) ≡ false
    → strrchr b (text_of f letter rest) ≡ strrchr b rest
strrchr-text_of f letter b rest l e = strrchr-numbered f.shown f.n letter b rest f.small l e

pub shown_first :
    (shown : Bool) (n letter : ℕ) (rest : List ℕ)
    → n < 2 ^ 31
    → 58 ≤ letter
    → shown ≡ true
    → strchr letter (numbered shown (pos n) letter ++ rest) ≡ some (letter ∷ rest)
shown_first true n letter rest h l e = strchr-numbered_found n letter rest h l
shown_first false n letter rest h l e = cc e

shown_last :
    (shown : Bool) (n letter : ℕ) (rest : List ℕ)
    → n < 2 ^ 31
    → 58 ≤ letter
    → strrchr letter rest ≡ none
    → shown ≡ true
    → strrchr letter (numbered shown (pos n) letter ++ rest) ≡ some (letter ∷ rest)
shown_last true n letter rest h l z e = strrchr-numbered_found n letter rest h l z
shown_last false n letter rest h l z e = cc e

pub hidden :
    (shown : Bool) (n letter : ℕ) (rest : List ℕ)
    → shown ≡ false
    → numbered shown (pos n) letter ++ rest ≡ rest
unfolding numbered
hidden true n letter rest e = cc e
hidden false n letter rest e = refl

module _ (accepts : List ℕ → Bool) (set : Duration → ℤ → Duration) (f : Field) (letter c : ℕ)
    (rest : List ℕ) (d : Duration) (not_weeks : Bool) (l : 58 ≤ letter) (o : (c == letter) ≡ false)
    (same : set d (pos 0) ≡ d) where
  -- A field that strchr looks for.
  pub first-Passes :
      accepts (letter ∷ rest) ≡ true
      → ((p : Parse) → parse_at accepts set (strchr letter rest) p ≡ some p)
      → Passes
          (parse_at accepts set
            (strchr letter (c ∷ text_of f letter rest))
            (at_byte c (text_of f letter rest) d not_weeks))
          c
          letter
          rest
          (set d (pos f.n))
  first-Passes a missed =
      field-Passes accepts set f.n letter c rest d not_weeks f.small l same f.shown
        (strchr letter (c ∷ text_of f letter rest)) f.silent
        (λ e. (
          strchr_cons letter c (text_of f letter rest) o
              ∙ shown_first f.shown f.n letter rest f.small l e,
          a,
        ))
        (λ e.
          ap (λ x. parse_at accepts set x (at_byte c rest d not_weeks))
            (strchr_cons letter c (text_of f letter rest) o
              ∙ ap (strchr letter) (hidden f.shown f.n letter rest e))
          ∙ missed (at_byte c rest d not_weeks))

  -- A field that strrchr looks for.
  pub last-Passes :
      (f.shown ≡ true → accepts (letter ∷ rest) ≡ true)
      → strrchr letter rest ≡ none
      → Passes
          (parse_at accepts set
            (strrchr letter (c ∷ text_of f letter rest))
            (at_byte c (text_of f letter rest) d not_weeks))
          c
          letter
          rest
          (set d (pos f.n))
  last-Passes a z =
      field-Passes accepts set f.n letter c rest d not_weeks f.small l same f.shown
        (strrchr letter (c ∷ text_of f letter rest)) f.silent
        (λ e. (
          strrchr_cons letter c (text_of f letter rest) o
              ∙ shown_last f.shown f.n letter rest f.small l z e,
          a e,
        ))
        (λ e.
          ap (λ x. parse_at accepts set x (at_byte c rest d not_weeks))
            (strrchr_cons letter c (text_of f letter rest) o
              ∙ ap (strrchr letter) (hidden f.shown f.n letter rest e)
              ∙ z))

pub length-text_of_le :
    (f : Field) (letter : ℕ) (rest : List ℕ) → length (text_of f letter rest) ≤ 11 + length rest
length-text_of_le f letter rest = omega (
  arith,
  length-append (numbered f.shown (pos f.n) letter) rest,
  length-numbered_le f.shown f.n letter,
)

pub length-text_of_ge :
    (f : Field) (letter : ℕ) (rest : List ℕ) → length rest ≤ length (text_of f letter rest)
length-text_of_ge f letter rest =
    omega (arith, length-append (numbered f.shown (pos f.n) letter) rest)

shown_longer :
    (shown : Bool) (n letter : ℕ) (rest : List ℕ)
    → n < 2 ^ 31
    → shown ≡ true
    → length rest < length (numbered shown (pos n) letter ++ rest)
shown_longer true n letter rest h e =
    omega
      (arith, ap length (numbered_shown n letter rest h), length-append (decimal n) (letter ∷ rest))
shown_longer false n letter rest h e = cc e

pub length-text_of_lt :
    (f : Field) (letter : ℕ) (rest : List ℕ)
    → f.shown ≡ true
    → length rest < length (text_of f letter rest)
length-text_of_lt f letter rest e = shown_longer f.shown f.n letter rest f.small e

-- What stands later in a short text has the greater offset.
pub offset_lt :
    (text earlier later : List ℕ)
    → length later < length earlier
    → length earlier ≤ length text
    → length text < 2 ^ 64
    → ltb (offset text earlier) (offset text later) ≡ true
offset_lt text earlier later a b c = ground (arith, a, b, c)

pub offset_ge :
    (text earlier later : List ℕ)
    → length later < length earlier
    → length earlier ≤ length text
    → length text < 2 ^ 64
    → ltb (offset text later) (offset text earlier) ≡ false
offset_ge text earlier later a b c = ground (arith, a, b, c)
