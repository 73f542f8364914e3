-- ===== src/Duration/Whole.antt =====
-- A whole text, of a date alone or of a date and a time, as `duration_create_from_string` parses
-- it.
use volans.Prelude.{
  ℕ, ◌^◌, ◌≤◌, ◌<◌, ◌≡◌, refl, ap, ◌∙◌, Bool, true, false, Option, none, some, List, [], ◌∷◌, ◌==◌,
  length, arith,
}
use volans.Prelude.Int.{ℤ}
use volans.Duration.{Duration}
use volans.Duration.Parse.{
  strchr, strrchr, Parse, parse_at, parse_hours, parse_minutes, parse_seconds, parse_weeks,
  parse_parts, skip_to_time, in_date, in_time, has, ◌>>=◌,
}
use volans.Duration.Letters.{strchr_cons}
use volans.Duration.Steps.{at_byte}
use volans.Duration.Fields.{
  Field, text_of, strchr-text_of, length-text_of_le, length-text_of_ge, length-text_of_lt,
  offset_lt, offset_ge, shown_first, hidden,
}
use volans.Duration.Parts.{none_missed, rejected, dated, timed, date_lem, time_lem}

out_of_time :
    (set : Duration → ℤ → Duration) (o : Option (List ℕ)) (p : Parse)
    → parse_at (has none) set o p ≡ some p
out_of_time set none p = refl
out_of_time set (some x) p = refl

out_of_minutes :
    (start : List ℕ) (set : Duration → ℤ → Duration) (o : Option (List ℕ)) (p : Parse)
    → parse_at (in_time start none) set o p ≡ some p
out_of_minutes start set none p = refl
out_of_minutes start set (some x) p = refl

-- Without a letter T the parse ends behind the date.
no_time_lem :
    (start : List ℕ) (p : Parse)
    → strchr 87 p.str ≡ none
    → (do
      p4 ← parse_hours none p
      p5 ← parse_minutes start none p4
      p6 ← parse_seconds none p5
      parse_weeks (strchr 87 p6.str) p6)
      ≡ some (some p.duration)
no_time_lem start p e =
    ap
      (λ o. do
        p4 ← o
        p5 ← parse_minutes start none p4
        p6 ← parse_seconds none p5
        parse_weeks (strchr 87 p6.str) p6)
      (out_of_time (λ d n. record d { hours = n }) (strchr 72 p.str) p)
    ∙ ap (λ o. do p5 ← o; p6 ← parse_seconds none p5; parse_weeks (strchr 87 p6.str) p6)
        (out_of_minutes start (λ d n. record d { minutes = n }) (strrchr 77 p.str) p)
    ∙ ap (λ o. do p6 ← o; parse_weeks (strchr 87 p6.str) p6)
        (out_of_time (λ d n. record d { seconds = n }) (strchr 83 p.str) p)
    ∙ ap (λ o. parse_weeks o p) e

module _ (Y M D H N S : Field) where
  abbrev pub time_of : List ℕ
  time_of = text_of H 72 (text_of N 77 (text_of S 83 []))

  abbrev pub date_of : List ℕ → List ℕ
  date_of tail = 80 ∷ text_of Y 89 (text_of M 77 (text_of D 68 tail))

  strchr-date_of : (tail : List ℕ) → strchr 84 (date_of tail) ≡ strchr 84 tail
  strchr-date_of tail =
      strchr_cons 84 80 (text_of Y 89 (text_of M 77 (text_of D 68 tail))) refl
      ∙ strchr-text_of Y 89 84 (text_of M 77 (text_of D 68 tail)) (omega arith) refl
      ∙ strchr-text_of M 77 84 (text_of D 68 tail) (omega arith) refl
      ∙ strchr-text_of D 68 84 tail (omega arith) refl

  length-date_of : (tail : List ℕ) → length tail < 2 ^ 60 → length (date_of tail) < 2 ^ 64
  length-date_of tail h = omega (
    arith,
    h,
    length-text_of_le Y 89 (text_of M 77 (text_of D 68 tail)),
    length-text_of_le M 77 (text_of D 68 tail),
    length-text_of_le D 68 tail,
  )

  -- A date alone.
  pub parse_date :
      parse_parts (date_of []) (date_of []) (strchr 84 (date_of []))
      ≡ some (some (dated Y.n M.n D.n))
  parse_date =
      let text = date_of [] in
      let (c, not_weeks, other, e) =
        date_lem Y M D [] none refl refl refl (λ p. refl)
          (λ p. do
            p4 ← parse_hours none p
            p5 ← parse_minutes text none p4
            p6 ← parse_seconds none p5
            parse_weeks (strchr 87 p6.str) p6) in
      ap (parse_parts text text) (strchr-date_of [])
      ∙ e
      ∙ no_time_lem text (at_byte c [] (dated Y.n M.n D.n) not_weeks) (strchr_cons 87 c [] other)

  strchr-time_of :
      (b : ℕ)
      → 58 ≤ b
      → (84 == b) ≡ false
      → (72 == b) ≡ false
      → (77 == b) ≡ false
      → (83 == b) ≡ false
      → strchr b (84 ∷ time_of) ≡ none
  strchr-time_of b l t h n s =
      strchr_cons b 84 time_of t
      ∙ strchr-text_of H 72 b (text_of N 77 (text_of S 83 [])) l h
      ∙ strchr-text_of N 77 b (text_of S 83 []) l n
      ∙ strchr-text_of S 83 b [] l s

  -- The letter of the minutes, in a text, is not taken for that of the months.
  minutes_lem :
      (start : List ℕ) (shown : Bool)
      → N.shown ≡ shown
      → length (84 ∷ time_of) ≤ length start
      → length start < 2 ^ 64
      → (set : Duration → ℤ → Duration) (p : Parse)
      → parse_at (in_date start (some (84 ∷ time_of))) set (strchr 77 (84 ∷ time_of)) p ≡ some p
  minutes_lem start true e within small set p =
      ap (λ o. parse_at (in_date start (some (84 ∷ time_of))) set o p)
        (strchr_cons 77 84 time_of refl
          ∙ strchr-text_of H 72 77 (text_of N 77 (text_of S 83 [])) (omega arith) refl
          ∙ shown_first N.shown N.n 77 (text_of S 83 []) N.small (omega arith) e)
      ∙ rejected (in_date start (some (84 ∷ time_of))) set (77 ∷ text_of S 83 []) p (
          offset_ge start (84 ∷ time_of) (77 ∷ text_of S 83 [])
            (omega (
              arith,
              length-text_of_ge H 72 (text_of N 77 (text_of S 83 [])),
              length-text_of_lt N 77 (text_of S 83 []) e,
            ))
            within small)
  minutes_lem start false e within small set p =
      none_missed (in_date start (some (84 ∷ time_of))) set (strchr 77 (84 ∷ time_of)) p (
        strchr_cons 77 84 time_of refl
        ∙ strchr-text_of H 72 77 (text_of N 77 (text_of S 83 [])) (omega arith) refl
        ∙ ap (strchr 77) (hidden N.shown N.n 77 (text_of S 83 []) e)
        ∙ strchr-text_of S 83 77 [] (omega arith) refl)

  abbrev pub whole : List ℕ
  whole = date_of (84 ∷ time_of)

  within_whole : length (84 ∷ time_of) < length whole
  within_whole = omega (
    arith,
    length-text_of_ge Y 89 (text_of M 77 (text_of D 68 (84 ∷ time_of))),
    length-text_of_ge M 77 (text_of D 68 (84 ∷ time_of)),
    length-text_of_ge D 68 (84 ∷ time_of),
  )

  days_whole : length (77 ∷ text_of D 68 (84 ∷ time_of)) ≤ length whole
  days_whole = omega (
    arith,
    length-text_of_ge Y 89 (text_of M 77 (text_of D 68 (84 ∷ time_of))),
    length-text_of_ge M 77 (text_of D 68 (84 ∷ time_of)),
  )

  small_whole : length whole < 2 ^ 64
  small_whole = length-date_of (84 ∷ time_of) (
      omega (
        arith,
        length-text_of_le H 72 (text_of N 77 (text_of S 83 [])),
        length-text_of_le N 77 (text_of S 83 []),
        length-text_of_le S 83 [],
      ))

  -- A date and a time.
  pub parse_time :
      parse_parts whole whole (strchr 84 whole)
      ≡ some (some (timed whole Y.n M.n D.n H N S H.n N.n S.n))
  parse_time =
      let t = some (84 ∷ time_of) in
      let (c, not_weeks, other, e) =
        date_lem Y M D (84 ∷ time_of) t
          (offset_lt whole (77 ∷ text_of D 68 (84 ∷ time_of)) (84 ∷ time_of)
            (omega (arith, length-text_of_ge D 68 (84 ∷ time_of))) days_whole small_whole)
          (strchr-time_of 89 (omega arith) refl refl refl refl)
          (strchr-time_of 68 (omega arith) refl refl refl refl)
          (minutes_lem whole N.shown refl (omega (arith, within_whole)) small_whole
            (λ d n. record d { months = n }))
          (λ p. do
            p4 ← parse_hours t (skip_to_time t p)
            p5 ← parse_minutes whole t p4
            p6 ← parse_seconds t p5
            parse_weeks (strchr 87 p6.str) p6) in
      ap (parse_parts whole whole) (strchr-date_of (84 ∷ time_of))
      ∙ e
      ∙ time_lem whole Y.n M.n D.n H N S (omega (arith, within_whole)) small_whole
