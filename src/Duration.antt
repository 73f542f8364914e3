-- ===== src/Duration.antt =====
-- duration.c: durations, their text and their number of seconds.
pub mod Buffer
pub mod Parse
pub mod Letters
pub mod Steps
pub mod Fields
pub mod Parts
pub mod Whole
pub mod RoundTrip
pub mod Seconds
pub mod Comparison
mod Tests
use volans.Prelude.{
  ℕ, zero, suc, ◌+◌, ◌-◌, ◌*◌, ◌/◌, ◌%◌, ◌^◌, Bool, true, false, not, ◌&&◌, ◌||◌, Option, none,
  some, List, [], ◌∷◌, ◌++◌, ltb, ◌==◌, if◌then◌else◌, length, take, drop,
}
use volans.Prelude.Int.{ℤ, pos, negsuc, ◌+ℤ◌, ◌-ℤ◌, ◌*ℤ◌}
use volans.Text.{decimal, atoi}
use volans.Marshalling.{word, int_of}

-- The fields are time_t, which are taken as integers: what they are set to here stays in range.
pub record Duration : Type 0 where
  pub years : ℤ
  pub months : ℤ
  pub weeks : ℤ
  pub days : ℤ
  pub hours : ℤ
  pub minutes : ℤ
  pub seconds : ℤ

abbrev pub is_zero : ℤ → Bool
is_zero (pos zero) = true
is_zero _ = false

abbrev pub is_positive : ℤ → Bool
is_positive (pos (suc _)) = true
is_positive _ = false

-- `duration_create`
abbrev pub duration_create : Duration
duration_create = record {
  years = pos 0;
  months = pos 0;
  weeks = pos 0;
  days = pos 0;
  hours = pos 0;
  minutes = pos 0;
  seconds = pos 0;
}

-- The first Difference that is not 0, as the int that is returned.
abbrev pub first_nonzero : List ℤ → ℤ
first_nonzero [] = pos 0
first_nonzero (z ∷ zs) = if is_zero z then first_nonzero zs else int_of (word z)

abbrev pub differences : List ℤ → List ℤ → List ℤ
differences (x ∷ xs) (y ∷ ys) = (x -ℤ y) ∷ differences xs ys
differences _ _ = []

-- The fields in the order in which they are compared.
abbrev pub fields : Duration → List ℤ
fields d = d.years ∷ d.months ∷ d.weeks ∷ d.days ∷ d.hours ∷ d.minutes ∷ d.seconds ∷ []

-- `duration_compare`; `none` is NULL.
unfoldable pub duration_compare : Option Duration → Option Duration → ℤ
duration_compare none none = pos 0
duration_compare (some _) none = negsuc 0
duration_compare none (some _) = pos 1
duration_compare (some a) (some b) = first_nonzero (differences (fields a) (fields b))

-- The loop of `digits_in_number`; a number of 32 bits takes at most ten rounds.
abbrev pub digits_from : ℕ → ℕ → ℕ
digits_from zero period = 0
digits_from (suc fuel) period =
    let more = digits_from fuel (period / 10) in if period == 0 then 0 else suc more

unfoldable pub digits_in_number : ℤ → ℕ
digits_in_number duration =
    let period = word duration in if period == 0 then 1 else digits_from 10 period

-- A number with its letter, as snprintf leaves it in a buffer for `digits_in_number` digits, the
-- letter and the NUL.
unfoldable pub numbered : Bool → ℤ → ℕ → List ℕ
numbered shown z letter =
    if shown then take (digits_in_number z + 1) (decimal (word z) ++ letter ∷ []) else []

unfoldable pub room : Bool → ℤ → ℕ
room shown z = if shown then 1 + digits_in_number z else 0

module _ (d : Duration) where
  -- The flag `D`, whether the seconds are shown, and the flag `T`.
  abbrev pub has_date : Bool
  has_date =
      is_positive d.years || (is_positive d.months || (is_positive d.weeks || is_positive d.days))

  abbrev pub has_seconds : Bool
  has_seconds = is_positive d.seconds || (not has_date && (is_zero d.hours && is_zero d.minutes))

  abbrev pub has_time : Bool
  has_time = is_positive d.hours || (is_positive d.minutes || has_seconds)

  -- The bytes that `duration2string` allocates.
  unfoldable pub duration2string_size : ℕ
  duration2string_size =
      2
      + room (is_positive d.years) d.years
      + room (is_positive d.months) d.months
      + room (is_positive d.weeks) d.weeks
      + room (is_positive d.days) d.days
      + room (is_positive d.hours) d.hours
      + room (is_positive d.minutes) d.minutes
      + room has_seconds d.seconds
      + (if has_time then 1 else 0)

  -- `duration2string`: the text that it writes there.
  unfoldable pub duration2string : List ℕ
  duration2string =
      80
      ∷ (numbered (is_positive d.years) d.years 89
          ++ (numbered (is_positive d.months) d.months 77
              ++ (numbered (is_positive d.weeks) d.weeks 87
                  ++ (numbered (is_positive d.days) d.days 68
                      ++ ((if has_time then 84 ∷ [] else [])
                          ++ (numbered (is_positive d.hours) d.hours 72
                              ++ (numbered (is_positive d.minutes) d.minutes 77
                                  ++ numbered has_seconds d.seconds 83)))))))

  -- `duration2time`
  unfoldable pub duration2time : ℤ
  duration2time =
      d.seconds
      +ℤ d.minutes *ℤ pos 60
      +ℤ d.hours *ℤ pos 3600
      +ℤ d.days *ℤ pos 86400
      +ℤ d.weeks *ℤ pos 604800
      +ℤ d.months *ℤ pos 2678400
      +ℤ d.years *ℤ pos 31536000

-- Division of time_t, which drops the fraction of either sign.
abbrev pub quotient : ℤ → ℕ → ℤ
quotient (pos n) k = pos (n / k)
quotient (negsuc n) k = pos 0 -ℤ pos (suc n / k)

abbrev pub without_units : ℤ → ℤ → ℕ → ℤ
without_units time units k = time -ℤ units *ℤ pos k

-- `duration_set_time` of a duration that is not NULL.
unfoldable pub duration_set_time : ℤ → Duration
duration_set_time time =
    let years = quotient time 31536000 in
    let time_1 = without_units time years 31536000 in
    let months = quotient time_1 2678400 in
    let time_2 = without_units time_1 months 2678400 in
    let days = quotient time_2 86400 in
    let time_3 = without_units time_2 days 86400 in
    let hours = quotient time_3 3600 in
    let time_4 = without_units time_3 hours 3600 in
    let minutes = quotient time_4 60 in
    record {
      years = years;
      months = months;
      weeks = pos 0;
      days = days;
      hours = hours;
      minutes = minutes;
      seconds = without_units time_4 minutes 60;
    }
