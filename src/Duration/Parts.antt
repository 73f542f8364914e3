-- ===== src/Duration/Parts.antt =====
-- The date and the time in the text of a duration, as `duration_create_from_string` parses them.
use volans.Prelude.{
  ℕ, ◌^◌, ◌≤◌, ◌<◌, ◌≡◌, refl, ap, ◌∙◌, Bool, true, false, Option, none, some, List, [], ◌∷◌, ◌==◌,
  if◌then◌else◌, length, drop, arith,
}
use volans.Text.{atoi}
use volans.Prelude.Int.{ℤ, pos}
use volans.Duration.{Duration, duration_create}
use volans.Duration.Parse.{
  strchr, Parse, parse_at, parse_years, parse_months, parse_days, parse_hours, parse_minutes,
  parse_seconds, parse_weeks, in_date, in_time, any, has, with_number, ◌>>=◌,
}
use volans.Duration.Letters.{strchr_cons}
use volans.Duration.Steps.{at_byte}
use volans.Duration.Fields.{
  Field, text_of, strchr-text_of, strrchr-text_of, first-Passes, last-Passes, length-text_of_ge,
  length-text_of_lt, offset_lt,
}

pub none_missed :
    (accepts : List ℕ → Bool) (set : Duration → ℤ → Duration) (o : Option (List ℕ)) (p : Parse)
    → o ≡ none
    → parse_at accepts set o p ≡ some p
none_missed accepts set none p e = refl
none_missed accepts set (some x) p e = cc e

abbrev pub dated : ℕ → ℕ → ℕ → Duration
dated y m d = record duration_create { years = pos y; months = pos m; days = pos d }

pub rejected :
    (accepts : List ℕ → Bool) (set : Duration → ℤ → Duration) (x : List ℕ) (p : Parse)
    → accepts x ≡ false
    → parse_at accepts set (some x) p ≡ some p
rejected accepts set x p e =
    ap (λ b. if b then with_number set x p (atoi (drop 1 p.str)) else some p) e

module _ (Y M D : Field) (tail : List ℕ) (t : Option (List ℕ)) where
  abbrev days_text : List ℕ
  days_text = text_of D 68 tail

  abbrev months_text : List ℕ
  months_text = text_of M 77 days_text

  abbrev text : List ℕ
  text = 80 ∷ text_of Y 89 months_text

  -- The date is parsed, whatever comes behind it that cannot be taken for a part of it.
  pub date_lem :
      in_date text t (77 ∷ days_text) ≡ true
      → strchr 89 tail ≡ none
      → strchr 68 tail ≡ none
      → ((p : Parse)
          → parse_at (in_date text t) (λ d n. record d { months = n }) (strchr 77 tail) p ≡ some p)
      → (k : Parse → Option (Option Duration))
      → (c : ℕ) × (not_weeks : Bool) × ((c == 87) ≡ false)
        × ((do
          p1 ← parse_years (record { str = text; duration = duration_create; not_weeks = false })
          p2 ← parse_months text t p1
          p3 ← parse_days p2
          k p3)
            ≡ k (at_byte c tail (dated Y.n M.n D.n) not_weeks))
  date_lem inside no_y no_d no_m k =
      let y =
        first-Passes any (λ d n. record d { years = n }) Y 89 80 months_text duration_create false
          (omega arith) refl refl refl
          (λ p.
            none_missed any (λ d n. record d { years = n }) (strchr 89 months_text) p
              (strchr-text_of M 77 89 days_text (omega arith) refl
                ∙ strchr-text_of D 68 89 tail (omega arith) refl
                ∙ no_y)) in
      let m =
        first-Passes (in_date text t) (λ d n. record d { months = n }) M 77 y.byte days_text
          (dated Y.n 0 0) y.not_weeks (omega arith) (y.others 77 refl refl) refl inside
          (λ p.
            ap (λ x. parse_at (in_date text t) (λ d n. record d { months = n }) x p)
              (strchr-text_of D 68 77 tail (omega arith) refl)
            ∙ no_m p) in
      let d =
        first-Passes any (λ d n. record d { days = n }) D 68 m.byte tail (dated Y.n M.n 0)
          m.not_weeks (omega arith) (m.others 68 (y.others 68 refl refl) refl) refl refl
          (λ p. none_missed any (λ d n. record d { days = n }) (strchr 68 tail) p no_d) in
      (
        d.byte,
        d.not_weeks,
        d.others 87 (m.others 87 (y.others 87 refl refl) refl) refl,
        ap (λ o. do p1 ← o; p2 ← parse_months text t p1; p3 ← parse_days p2; k p3) y.goes
            ∙ ap (λ o. do p2 ← o; p3 ← parse_days p2; k p3) m.goes
            ∙ ap (λ o. do p3 ← o; k p3) d.goes,
      )

module _ (text : List ℕ) (y m d : ℕ) (H N S : Field) where
  abbrev seconds_text : List ℕ
  seconds_text = text_of S 83 []

  abbrev minutes_text : List ℕ
  minutes_text = text_of N 77 seconds_text

  abbrev time_text : List ℕ
  time_text = 84 ∷ text_of H 72 minutes_text

  abbrev pub timed : ℕ → ℕ → ℕ → Duration
  timed h n s = record (dated y m d) { hours = pos h; minutes = pos n; seconds = pos s }

  -- The time is parsed from the letter T on.
  pub time_lem :
      length time_text ≤ length text
      → length text < 2 ^ 64
      → (do
        p4 ←
            parse_hours (some time_text) (at_byte 84 (text_of H 72 minutes_text) (dated y m d) true)
        p5 ← parse_minutes text (some time_text) p4
        p6 ← parse_seconds (some time_text) p5
        parse_weeks (strchr 87 p6.str) p6)
        ≡ some (some (timed H.n N.n S.n))
  time_lem within small =
      let t = some time_text in
      let h =
        first-Passes (has t) (λ d n. record d { hours = n }) H 72 84 minutes_text (dated y m d) true
          (omega arith) refl refl refl
          (λ p.
            none_missed (has t) (λ d n. record d { hours = n }) (strchr 72 minutes_text) p
              (strchr-text_of N 77 72 seconds_text (omega arith) refl
                ∙ strchr-text_of S 83 72 [] (omega arith) refl)) in
      let n =
        last-Passes (in_time text t) (λ d n. record d { minutes = n }) N 77 h.byte seconds_text
          (timed H.n 0 0) h.not_weeks (omega arith) (h.others 77 refl refl) refl
          (λ e.
            offset_lt text time_text (77 ∷ seconds_text)
              (omega
                (arith, length-text_of_ge H 72 minutes_text, length-text_of_lt N 77 seconds_text e))
              within small)
          (strrchr-text_of S 83 77 [] (omega arith) refl) in
      let s =
        first-Passes (has t) (λ d n. record d { seconds = n }) S 83 n.byte [] (timed H.n N.n 0)
          n.not_weeks (omega arith) (n.others 83 (h.others 83 refl refl) refl) refl refl
          (λ p. refl) in
      ap
        (λ o. do
          p4 ← o
          p5 ← parse_minutes text t p4
          p6 ← parse_seconds t p5
          parse_weeks (strchr 87 p6.str) p6)
        h.goes
      ∙ ap (λ o. do p5 ← o; p6 ← parse_seconds t p5; parse_weeks (strchr 87 p6.str) p6) n.goes
      ∙ ap (λ o. do p6 ← o; parse_weeks (strchr 87 p6.str) p6) s.goes
      ∙ ap (λ o. parse_weeks o (at_byte s.byte [] (timed H.n N.n S.n) s.not_weeks))
          (strchr_cons 87 s.byte [] (s.others 87 (n.others 87 (h.others 87 refl refl) refl) refl))
