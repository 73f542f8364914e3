-- ===== src/Duration/RoundTrip.antt =====
-- Reading the text of a duration with `duration_create_from_string`.
use volans.Prelude.{
  ℕ, ◌^◌, ◌<◌, ◌≡◌, refl, sym, ap, ◌∙◌, Bool, true, false, some, List, [], ◌∷◌, ◌++◌, ◌||◌, zero,
  suc, append-nil, if◌then◌else◌,
}
use volans.Prelude.Int.{pos}
use volans.Duration.{Duration, is_positive, has_seconds, has_time, numbered, duration2string}
use volans.Duration.Parse.{duration_create_from_string}
use volans.Duration.Fields.{Field}
use volans.Duration.Whole.{date_of, parse_date, parse_time}

-- The duration with these fields and no weeks.
abbrev pub without_weeks : ℕ → ℕ → ℕ → ℕ → ℕ → ℕ → Duration
without_weeks y m d h n s = record {
  years = pos y;
  months = pos m;
  weeks = pos 0;
  days = pos d;
  hours = pos h;
  minutes = pos n;
  seconds = pos s;
}

positive_lem : (n : ℕ) → is_positive (pos n) ≡ false → n ≡ 0
positive_lem zero e = refl
positive_lem (suc n) e = cc e

or_false : (a b : Bool) → (a || b) ≡ false → (a ≡ false) × (b ≡ false)
or_false true b e = cc e
or_false false b e = (refl, e)

abbrev field_of : (n : ℕ) → n < 2 ^ 31 → Field
field_of n h = record { n = n; shown = is_positive (pos n); small = h; silent = positive_lem n }

module _ (y m d h n s : ℕ) (lh : h < 2 ^ 31) (ln : n < 2 ^ 31) (ls : s < 2 ^ 31) where
  abbrev duration : Duration
  duration = without_weeks y m d h n s

  abbrev seconds_of : Field
  seconds_of = record {
    n = s;
    shown = has_seconds duration;
    small = ls;
    silent = λ f. positive_lem s (or_false _ _ f).0;
  }

  abbrev shown_time : Bool → Bool → Bool → Bool → List ℕ
  shown_time b bh bn bs =
      (if b then 84 ∷ [] else [])
      ++ (numbered bh (pos h) 72 ++ (numbered bn (pos n) 77 ++ numbered bs (pos s) 83))

  shown_time-true :
      (bh bn bs : Bool)
      → shown_time true bh bn bs
        ≡ 84
          ∷ (numbered bh (pos h) 72 ++ (numbered bn (pos n) 77 ++ (numbered bs (pos s) 83 ++ [])))
  shown_time-true bh bn bs =
      ap (λ t. 84 ∷ (numbered bh (pos h) 72 ++ (numbered bn (pos n) 77 ++ t)))
        (sym (append-nil (numbered bs (pos s) 83)))

  shown_time-false :
      (bh bn bs : Bool) → bh ≡ false → bn ≡ false → bs ≡ false → shown_time false bh bn bs ≡ []
  unfolding numbered
  shown_time-false false false false eh en es = refl
  shown_time-false true bn bs eh en es = cc eh
  shown_time-false false true bs eh en es = cc en
  shown_time-false false false true eh en es = cc es

  module _ (ly : y < 2 ^ 31) (lm : m < 2 ^ 31) (ld : d < 2 ^ 31) where
    text_by :
        (b : Bool)
        → has_time duration ≡ b
        → duration2string duration
          ≡ date_of
              (field_of y ly)
              (field_of m lm)
              (field_of d ld)
              (field_of h lh)
              (field_of n ln)
              seconds_of
              (shown_time b (is_positive (pos h)) (is_positive (pos n)) (has_seconds duration))
    unfolding duration2string numbered
    text_by b e =
        ap
          (λ c.
            date_of (field_of y ly) (field_of m lm) (field_of d ld) (field_of h lh) (field_of n ln)
              seconds_of
              (shown_time c (is_positive (pos h)) (is_positive (pos n)) (has_seconds duration)))
          e

    by_time :
        (b : Bool)
        → has_time duration ≡ b
        → duration_create_from_string (some (duration2string duration)) ≡ some (some duration)
    unfolding duration_create_from_string
    by_time true e =
        ap (λ t. duration_create_from_string (some t))
          (text_by true e
            ∙ ap
                (date_of (field_of y ly) (field_of m lm) (field_of d ld) (field_of h lh)
                  (field_of n ln) seconds_of)
                (shown_time-true (is_positive (pos h)) (is_positive (pos n))
                  (has_seconds duration)))
        ∙ parse_time (field_of y ly) (field_of m lm) (field_of d ld) (field_of h lh) (field_of n ln)
            seconds_of
    by_time false e =
        let (eh, later) = or_false (is_positive (pos h)) _ e in
        let (en, es) = or_false (is_positive (pos n)) _ later in
        ap (λ t. duration_create_from_string (some t))
          (text_by false e
            ∙ ap
                (date_of (field_of y ly) (field_of m lm) (field_of d ld) (field_of h lh)
                  (field_of n ln) seconds_of)
                (shown_time-false (is_positive (pos h)) (is_positive (pos n)) (has_seconds duration)
                  eh en es))
        ∙ parse_date (field_of y ly) (field_of m lm) (field_of d ld) (field_of h lh) (field_of n ln)
            seconds_of
        ∙ ap (λ a. some (some (without_weeks y m d a 0 0))) (sym (positive_lem h eh))
        ∙ ap (λ a. some (some (without_weeks y m d h a 0))) (sym (positive_lem n en))
        ∙ ap (λ a. some (some (without_weeks y m d h n a)))
            (sym (positive_lem s (or_false (is_positive (pos s)) _ es).0))

-- The text that duration2string writes for a duration without weeks, whose other fields are
-- numbers below 2^31, is read back by duration_create_from_string as that duration.
pub duration_create_from_string-duration2string :
    (y m d h n s : ℕ)
    → y < 2 ^ 31
    → m < 2 ^ 31
    → d < 2 ^ 31
    → h < 2 ^ 31
    → n < 2 ^ 31
    → s < 2 ^ 31
    → duration_create_from_string (some (duration2string (without_weeks y m d h n s)))
      ≡ some (some (without_weeks y m d h n s))
duration_create_from_string-duration2string y m d h n s ly lm ld lh ln ls =
    by_time y m d h n s lh ln ls ly lm ld (has_time (without_weeks y m d h n s)) refl
