-- ===== src/Duration/Parse.antt =====
-- `duration_create_from_string` of duration.c.
use volans.Prelude.{
  ℕ, ◌+◌, ◌-◌, ◌%◌, ◌^◌, Bool, true, false, Option, none, some, List, [], ◌∷◌, ltb, ◌==◌,
  if◌then◌else◌, length, drop,
}
use volans.Prelude.Int.{ℤ}
use volans.Text.{atoi}
use volans.Duration.{Duration, duration_create}

-- `strchr` and `strrchr` of a byte that is not NUL: the text from there on, and `none` is NULL.
abbrev pub strchr : ℕ → List ℕ → Option (List ℕ)
strchr b [] = none
strchr b (c ∷ cs) = let more = strchr b cs in if c == b then some (c ∷ cs) else more

abbrev pub last_or : Option (List ℕ) → Bool → List ℕ → Option (List ℕ)
last_or (some later) here text = some later
last_or none true text = some text
last_or none false text = none

abbrev pub strrchr : ℕ → List ℕ → Option (List ℕ)
strrchr b [] = none
strrchr b (c ∷ cs) = last_or (strrchr b cs) (c == b) (c ∷ cs)

-- The variables `str`, `duration` and `not_weeks`.
pub record Parse : Type 0 where
  pub str : List ℕ
  pub duration : Duration
  pub not_weeks : Bool

-- `(size_t)(X-P)`, of pointers into one text, which are the text from there on.
abbrev pub offset : List ℕ → List ℕ → ℕ
offset p x = (2 ^ 64 + length p - length x) % 2 ^ 64

-- A field is read if its letter was found, at `x`, and is accepted there. `none` is a number that
-- is not an int.
abbrev pub with_number : (Duration → ℤ → Duration) → List ℕ → Parse → Option ℤ → Option Parse
with_number set x p none = none
with_number set x p (some n) =
    some (record { str = x; duration = set p.duration n; not_weeks = true })

abbrev pub parse_at :
    (List ℕ → Bool) → (Duration → ℤ → Duration) → Option (List ℕ) → Parse → Option Parse
parse_at accepts set none p = some p
parse_at accepts set (some x) p =
    if accepts x then with_number set x p (atoi (drop 1 p.str)) else some p

-- What `months` and `minutes` ask of the place of their letter, and the others of the hours.
abbrev pub in_date : List ℕ → Option (List ℕ) → List ℕ → Bool
in_date start none x = true
in_date start (some t) x = ltb (offset start x) (offset start t)

abbrev pub in_time : List ℕ → Option (List ℕ) → List ℕ → Bool
in_time start none x = false
in_time start (some t) x = ltb (offset start t) (offset start x)

abbrev pub any : List ℕ → Bool
any x = true

abbrev pub has : Option (List ℕ) → List ℕ → Bool
has none x = false
has (some t) x = true

abbrev pub parse_years : Parse → Option Parse
parse_years p = parse_at any (λ d n. record d { years = n }) (strchr 89 p.str) p

abbrev pub parse_months : List ℕ → Option (List ℕ) → Parse → Option Parse
parse_months start t p =
    parse_at (in_date start t) (λ d n. record d { months = n }) (strchr 77 p.str) p

abbrev pub parse_days : Parse → Option Parse
parse_days p = parse_at any (λ d n. record d { days = n }) (strchr 68 p.str) p

abbrev pub skip_to_time : Option (List ℕ) → Parse → Parse
skip_to_time none p = p
skip_to_time (some t) p = record p { str = t; not_weeks = true }

abbrev pub parse_hours : Option (List ℕ) → Parse → Option Parse
parse_hours t p = parse_at (has t) (λ d n. record d { hours = n }) (strchr 72 p.str) p

abbrev pub parse_minutes : List ℕ → Option (List ℕ) → Parse → Option Parse
parse_minutes start t p =
    parse_at (in_time start t) (λ d n. record d { minutes = n }) (strrchr 77 p.str) p

abbrev pub parse_seconds : Option (List ℕ) → Parse → Option Parse
parse_seconds t p = parse_at (has t) (λ d n. record d { seconds = n }) (strchr 83 p.str) p

-- The weeks come last: where another field was read, the text is refused, as NULL.
abbrev pub with_weeks : Parse → Option ℤ → Option (Option Duration)
with_weeks p none = none
with_weeks p (some n) = some (some (record p.duration { weeks = n }))

abbrev pub parse_weeks : Option (List ℕ) → Parse → Option (Option Duration)
parse_weeks none p = some (some p.duration)
parse_weeks (some x) p = if p.not_weeks then some none else with_weeks p (atoi (drop 1 p.str))

infixl 5 ◌>>=◌
abbrev pub ◌>>=◌ : {A B : Type 0} → Option A → (A → Option B) → Option B
none >>= f = none
some a >>= f = f a

abbrev pub parse_parts : List ℕ → List ℕ → Option (List ℕ) → Option (Option Duration)
parse_parts text start t = do
  p1 ← parse_years (record { str = text; duration = duration_create; not_weeks = false })
  p2 ← parse_months start t p1
  p3 ← parse_days p2
  p4 ← parse_hours t (skip_to_time t p3)
  p5 ← parse_minutes start t p4
  p6 ← parse_seconds t p5
  parse_weeks (strchr 87 p6.str) p6

abbrev pub parse_or_null : List ℕ → Option (List ℕ) → Option (Option Duration)
parse_or_null text none = some none
parse_or_null text (some start) = parse_parts text start (strchr 84 text)

-- `duration_create_from_string`. The first `none` is a number that is not an int, the second one
-- NULL.
unfoldable pub duration_create_from_string : Option (List ℕ) → Option (Option Duration)
duration_create_from_string none = some (some duration_create)
duration_create_from_string (some text) = parse_or_null text (strchr 80 text)
