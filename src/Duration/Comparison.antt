-- ===== src/Duration/Comparison.antt =====
-- `duration_compare` and the order of the fields.
use volans.Prelude.{
  ℕ, zero, suc, ◌-◌, ◌^◌, ◌<◌, ◌≡◌, refl, ◌∙◌, ap, ◌⊎◌, inl, inr, some, List, [], ◌∷◌, map,
  if◌then◌else◌, ltb, length, All, arith, Bool-cases,
}
use volans.Prelude.Int.{ℤ, pos, negsuc, ◌-ℤ◌}
use volans.Text.{Sign, less, equal, greater, strcmp, compare, then_by}
use volans.Marshalling.{word, int_of}
use volans.Marshalling.Integer.{int_of-word}
use volans.Duration.{Duration, is_zero, first_nonzero, differences, fields, duration_compare}

abbrev pub sign_of : ℤ → Sign
sign_of (pos zero) = equal
sign_of (pos (suc n)) = greater
sign_of (negsuc n) = less

Difference : ℕ → ℕ → ℤ → Type 0
Difference x y z =
    ((z ≡ pos 0) × (compare x y ≡ equal))
    ⊎ (((n : ℕ) × (z ≡ pos (suc n)) × (suc n < 2 ^ 31) × (compare x y ≡ greater))
        ⊎ ((n : ℕ) × (z ≡ negsuc n) × (n < 2 ^ 31) × (compare x y ≡ less)))

Difference-cases : (x y : ℕ) → x < 2 ^ 31 → y < 2 ^ 31 → Difference x y (pos x -ℤ pos y)
unfolding ◌-ℤ◌ Difference
Difference-cases x y h k = elim (Bool-cases (ltb x y)) [
  | inl e ↦ inr (inr (y - x - 1, ground (arith, e), ground (arith, e), ground (arith, e)))
  | inr e ↦ elim (Bool-cases (ltb y x)) [
    | inl f ↦
        inr (inl (x - y - 1, ground (arith, e, f), ground (arith, e, f), ground (arith, e, f)))
    | inr f ↦ inl (ground (arith, e, f), ground (arith, e, f))
  ]
]

-- The difference of two numbers below 2 ^ 31 is an int, and has their order as its sign.
first_lem :
    (x y : ℕ) (rest : ℤ)
    → x < 2 ^ 31
    → y < 2 ^ 31
    → sign_of (if is_zero (pos x -ℤ pos y) then rest else int_of (word (pos x -ℤ pos y)))
      ≡ then_by (compare x y) (sign_of rest)
unfolding Difference
first_lem x y rest h k = elim (Difference-cases x y h k) [
  | inl (e, c) ↦ rw (e, c) refl
  | inr (inl (n, e, m, c)) ↦ rw (e, c) (ap sign_of (int_of-word (pos (suc n)) m))
  | inr (inr (n, e, m, c)) ↦ rw (e, c) (ap sign_of (int_of-word (negsuc n) m))
]

first_nonzero-differences :
    (xs ys : List ℕ)
    → length xs ≡ length ys
    → All (λ x. x < 2 ^ 31) xs
    → All (λ y. y < 2 ^ 31) ys
    → sign_of (first_nonzero (differences (map pos xs) (map pos ys))) ≡ strcmp xs ys
first_nonzero-differences [] [] e h k = refl
first_nonzero-differences [] (y ∷ ys) e h k = absurd (omega arith)
first_nonzero-differences (x ∷ xs) [] e h k = absurd (omega arith)
first_nonzero-differences (x ∷ xs) (y ∷ ys) e h k =
    first_lem x y (first_nonzero (differences (map pos xs) (map pos ys))) h.0 k.0
    ∙ ap (then_by (compare x y)) (first_nonzero-differences xs ys (omega arith) h.1 k.1)

-- The sign of the comparison of two durations, whose fields are numbers below 2^31, is that of the
-- first two fields that differ, from the years to the seconds.
pub duration_compare_lem :
    (a b : Duration) (xs ys : List ℕ)
    → fields a ≡ map pos xs
    → fields b ≡ map pos ys
    → length xs ≡ length ys
    → All (λ x. x < 2 ^ 31) xs
    → All (λ y. y < 2 ^ 31) ys
    → sign_of (duration_compare (some a) (some b)) ≡ strcmp xs ys
unfolding duration_compare
duration_compare_lem a b xs ys e f l h k =
    ap (λ r. sign_of (first_nonzero (differences r (fields b)))) e
    ∙ ap (λ r. sign_of (first_nonzero (differences (map pos xs) r))) f
    ∙ first_nonzero-differences xs ys l h k
