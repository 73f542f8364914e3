-- ===== src/Duration/Seconds.antt =====
-- `duration_set_time` and `duration2time`.
use volans.Prelude.{ℕ, ◌+◌, ◌-◌, ◌*◌, ◌/◌, ◌≤◌, ◌<◌, ◌≡◌, refl, ◌∙◌, ap, arith}
use volans.Prelude.Int.{ℤ, pos, ◌+ℤ◌, ◌-ℤ◌, ◌*ℤ◌}
use volans.Duration.{Duration, without_units, duration2time, duration_set_time}

sub_pos : (a b : ℕ) → b ≤ a → pos a -ℤ pos b ≡ pos (a - b)
unfolding ◌-ℤ◌
sub_pos a b h = ground arith

nothing : (a : ℕ) → a * 0 + 0 * a ≡ 0
nothing a = omega arith

mul_pos : (a b : ℕ) → pos a *ℤ pos b ≡ pos (a * b)
unfolding ◌*ℤ◌
mul_pos a b = ground (arith, nothing a, nothing b)

add_pos : (a b : ℕ) → pos a +ℤ pos b ≡ pos (a + b)
unfolding ◌+ℤ◌
add_pos a b = ground arith

less_units : (n k : ℕ) → n / k * k ≤ n → without_units (pos n) (pos (n / k)) k ≡ pos (n - n / k * k)
less_units n k h = ap (λ z. pos n -ℤ z) (mul_pos (n / k) k) ∙ sub_pos n (n / k * k) h

-- The rest of a division, as the source computes it.
abbrev rest : ℕ → ℕ → ℕ
rest n k = n - n / k * k

record InNumbers (d : Duration) (t : ℕ) : Type 0 where
  years : d.years ≡ pos (t / 31536000)
  months : d.months ≡ pos (rest t 31536000 / 2678400)
  weeks : d.weeks ≡ pos 0
  days : d.days ≡ pos (rest (rest t 31536000) 2678400 / 86400)
  hours : d.hours ≡ pos (rest (rest (rest t 31536000) 2678400) 86400 / 3600)
  minutes : d.minutes ≡ pos (rest (rest (rest (rest t 31536000) 2678400) 86400) 3600 / 60)
  seconds : d.seconds ≡ pos (rest (rest (rest (rest (rest t 31536000) 2678400) 86400) 3600) 60)

set-InNumbers : (t : ℕ) → InNumbers (duration_set_time (pos t)) t
unfolding duration_set_time
set-InNumbers t =
    let r1 = less_units t 31536000 (omega arith) in
    let t1 = rest t 31536000 in
    let r2 = less_units t1 2678400 (omega arith) in
    let t2 = rest t1 2678400 in
    let r3 = less_units t2 86400 (omega arith) in
    let t3 = rest t2 86400 in
    let r4 = less_units t3 3600 (omega arith) in
    let t4 = rest t3 3600 in
    let r5 = less_units t4 60 (omega arith) in
    rw (r1, r2, r3, r4, r5)
      (record {
        years = refl;
        months = refl;
        weeks = refl;
        days = refl;
        hours = refl;
        minutes = refl;
        seconds = refl;
      })

total :
    (s m h d w o y : ℕ)
    → pos s
        +ℤ pos m *ℤ pos 60
        +ℤ pos h *ℤ pos 3600
        +ℤ pos d *ℤ pos 86400
        +ℤ pos w *ℤ pos 604800
        +ℤ pos o *ℤ pos 2678400
        +ℤ pos y *ℤ pos 31536000
      ≡ pos (s + m * 60 + h * 3600 + d * 86400 + w * 604800 + o * 2678400 + y * 31536000)
total s m h d w o y = simp (mul_pos, add_pos)

abbrev pub Below : ℤ → ℕ → Type 0
Below z k = (n : ℕ) × (z ≡ pos n) × (n < k)

-- A number of seconds that is not negative, set as a duration, gives the number back, with months
-- below 12, days below 31, hours below 24, minutes and seconds below 60 and no weeks.
pub duration2time-duration_set_time :
    (t : ℕ)
    → (duration2time (duration_set_time (pos t)) ≡ pos t)
      × Below (duration_set_time (pos t)).months 12
      × ((duration_set_time (pos t)).weeks ≡ pos 0)
      × Below (duration_set_time (pos t)).days 31
      × Below (duration_set_time (pos t)).hours 24
      × Below (duration_set_time (pos t)).minutes 60
      × Below (duration_set_time (pos t)).seconds 60
unfolding duration2time
duration2time-duration_set_time t =
    let d = set-InNumbers t in
    (
      rw (d.years, d.months, d.weeks, d.days, d.hours, d.minutes, d.seconds)
          (total _ _ _ _ _ _ _ ∙ ap pos (omega arith)),
      (_, d.months, omega arith),
      d.weeks,
      (_, d.days, omega arith),
      (_, d.hours, omega arith),
      (_, d.minutes, omega arith),
      (_, d.seconds, omega arith),
    )
