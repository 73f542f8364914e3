-- ===== src/Duration/Steps.antt =====
-- What one field of its text does to a parse of `duration_create_from_string`.
use volans.Prelude.{
  ℕ, ◌^◌, ◌≤◌, ◌<◌, ◌≡◌, refl, sym, ap, subst, ◌∙◌, Bool, true, false, Option, some, List, ◌∷◌,
  ◌++◌, ◌==◌, if◌then◌else◌, arith,
}
use volans.Prelude.Int.{ℤ, pos}
use volans.Text.{is_digit, atoi}
use volans.Text.Scan.{atoi-decimal}
use volans.Duration.{Duration, numbered}
use volans.Duration.Parse.{Parse, parse_at, with_number}
use volans.Duration.Letters.{numbered_shown}

-- A parse that stands before `text`, at a byte other than the letters that may come.
abbrev pub at_byte : ℕ → List ℕ → Duration → Bool → Parse
at_byte c text d not_weeks = record { str = c ∷ text; duration = d; not_weeks = not_weeks }

-- Where a parse of a field, with the byte before it, leads: behind the field, with its number.
pub record Passes (step : Option Parse) (c letter : ℕ) (rest : List ℕ) (d : Duration) : Type 0 where
  pub byte : ℕ
  pub not_weeks : Bool
  pub goes : step ≡ some (at_byte byte rest d not_weeks)
  pub others : (b : ℕ) → (c == b) ≡ false → (letter == b) ≡ false → (byte == b) ≡ false

module _ (accepts : List ℕ → Bool) (set : Duration → ℤ → Duration) where
  found_lem :
      (n letter c : ℕ) (rest : List ℕ) (d : Duration) (not_weeks : Bool)
      → n < 2 ^ 31
      → is_digit letter ≡ false
      → accepts (letter ∷ rest) ≡ true
      → Passes
          (parse_at accepts set
            (some (letter ∷ rest))
            (at_byte c (numbered true (pos n) letter ++ rest) d not_weeks))
          c
          letter
          rest
          (set d (pos n))
  found_lem n letter c rest d not_weeks h l a = record {
    byte = letter;
    not_weeks = true;
    goes =
        ap
          (λ b.
            if b
            then with_number set (letter ∷ rest) p (atoi (numbered true (pos n) letter ++ rest))
            else some p)
          a
        ∙ ap (with_number set (letter ∷ rest) p)
            (ap atoi (numbered_shown n letter rest h) ∙ atoi-decimal n letter rest h l);
    others = λ b e f. f;
  }
    where
      p : Parse
      p = at_byte c (numbered true (pos n) letter ++ rest) d not_weeks

  module _ (n letter c : ℕ) (rest : List ℕ) (d : Duration) (not_weeks : Bool) (h : n < 2 ^ 31)
      (l : 58 ≤ letter) (same : set d (pos 0) ≡ d) where
    unseen :
        (step : Option Parse)
        → n ≡ 0
        → step ≡ some (at_byte c rest d not_weeks)
        → Passes step c letter rest (set d (pos n))
    unseen step z e = record {
      byte = c;
      not_weeks = not_weeks;
      goes =
          e ∙ ap (λ x. some (at_byte c rest x not_weeks)) (sym (ap (λ m. set d (pos m)) z ∙ same));
      others = λ b e f. e;
    }

    -- A field whose letter is found if it is shown, and else is 0 and leaves the parse.
    pub field-Passes :
        (shown : Bool) (found : Option (List ℕ))
        → (shown ≡ false → n ≡ 0)
        → (shown ≡ true → (found ≡ some (letter ∷ rest)) × (accepts (letter ∷ rest) ≡ true))
        → (shown ≡ false
            → parse_at accepts set found (at_byte c rest d not_weeks)
              ≡ some (at_byte c rest d not_weeks))
        → Passes
            (parse_at accepts set found
              (at_byte c (numbered shown (pos n) letter ++ rest) d not_weeks))
            c
            letter
            rest
            (set d (pos n))
    unfolding numbered
    field-Passes true found z seen missed =
        subst
          (λ x.
            Passes
              (parse_at accepts set x
                (at_byte c (numbered true (pos n) letter ++ rest) d not_weeks))
              c letter rest (set d (pos n)))
          (sym (seen refl).0)
          (found_lem n letter c rest d not_weeks h (ground (arith, l)) (seen refl).1)
    field-Passes false found z seen missed = unseen _ (z refl) (missed refl)
