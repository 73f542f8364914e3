-- ===== src/Duration/Tests.antt =====
-- A duration of a year, a day and three minutes.
use volans.Prelude.{none, ◌+◌, ◌≡◌, length, refl, some, [], ◌∷◌, arith}
use volans.Prelude.Int.{pos}
use volans.Duration.Parse.{duration_create_from_string}
use volans.Duration.RoundTrip.{without_weeks, duration_create_from_string-duration2string}
use volans.Duration.{
  duration_compare, Duration, duration2string, duration2string_size, duration2time,
  duration_set_time,
}
use volans.Duration.Buffer.{length-duration2string}
use volans.Text.{less, codes}
use volans.Duration.Comparison.{sign_of, duration_compare_lem}
use volans.Duration.Seconds.{Below, duration2time-duration_set_time}

abbrev year_day_minutes : Duration
year_day_minutes = record {
  years = pos 1;
  months = pos 0;
  weeks = pos 0;
  days = pos 1;
  hours = pos 0;
  minutes = pos 3;
  seconds = pos 0;
}

length-duration2string_example :
    length (duration2string year_day_minutes) + 1 ≡ duration2string_size year_day_minutes
length-duration2string_example = length-duration2string year_day_minutes

duration2time-duration_set_time_example :
    (duration2time (duration_set_time (pos 31622580)) ≡ pos 31622580)
    × Below (duration_set_time (pos 31622580)).months 12
    × ((duration_set_time (pos 31622580)).weeks ≡ pos 0)
    × Below (duration_set_time (pos 31622580)).days 31
    × Below (duration_set_time (pos 31622580)).hours 24
    × Below (duration_set_time (pos 31622580)).minutes 60
    × Below (duration_set_time (pos 31622580)).seconds 60
duration2time-duration_set_time_example = duration2time-duration_set_time 31622580

abbrev year_two_days : Duration
year_two_days = record {
  years = pos 1;
  months = pos 0;
  weeks = pos 0;
  days = pos 2;
  hours = pos 0;
  minutes = pos 0;
  seconds = pos 0;
}

duration_compare_lem_example :
    sign_of (duration_compare (some year_day_minutes) (some year_two_days)) ≡ less
duration_compare_lem_example =
    duration_compare_lem year_day_minutes year_two_days (1 ∷ 0 ∷ 0 ∷ 1 ∷ 0 ∷ 3 ∷ 0 ∷ [])
      (1 ∷ 0 ∷ 0 ∷ 2 ∷ 0 ∷ 0 ∷ 0 ∷ []) refl refl refl
      (
        omega arith,
        (
          omega arith,
          (omega arith, (omega arith, (omega arith, (omega arith, (omega arith, tt))))),
        ),
      )
      (
        omega arith,
        (
          omega arith,
          (omega arith, (omega arith, (omega arith, (omega arith, (omega arith, tt))))),
        ),
      )

duration_create_from_string-duration2string_example :
    duration_create_from_string (some (duration2string (without_weeks 1 0 20 0 3 4)))
    ≡ some (some (without_weeks 1 0 20 0 3 4))
duration_create_from_string-duration2string_example =
    duration_create_from_string-duration2string 1 0 20 0 3 4 (omega arith) (omega arith)
      (omega arith) (omega arith) (omega arith) (omega arith)

-- One month, two weeks and three days are read as one month and two days.
weeks_lost :
    duration_create_from_string (some (codes "P1M2W3D")) ≡ some (some (without_weeks 0 1 2 0 0 0))
unfolding duration_create_from_string
weeks_lost = refl

weeks_refused : duration_create_from_string (some (codes "P1Y2W")) ≡ some none
unfolding duration_create_from_string
weeks_refused = refl

weeks_alone :
    duration_create_from_string (some (codes "P2W"))
    ≡ some (some (record (without_weeks 0 0 0 0 0 0) { weeks = pos 2 }))
unfolding duration_create_from_string
weeks_alone = refl
