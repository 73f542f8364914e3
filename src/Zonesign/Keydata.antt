-- ===== src/Zonesign/Keydata.antt =====
-- The public key of a DNSKEY record in `keytag` of zonesignrecord.c: `trimleadingzeros`, and the
-- exponent and the modulus in the form of RFC 3110.
use volans.Prelude.{
  ℕ, zero, suc, ◌+◌, ◌*◌, ◌/◌, ◌%◌, ◌<◌, ◌≡◌, refl, ap, ◌∙◌, Bool, true, false, Option, none, some,
  List, [], ◌∷◌, ◌++◌, arith, leb, ◌==◌, if◌then◌else◌, length, take, drop, length-append,
}

-- `trimleadingzeros`
unfoldable pub trimleadingzeros : List ℕ → List ℕ
trimleadingzeros [] = []
trimleadingzeros (b ∷ bs) = let rest = trimleadingzeros bs in if b == 0 then rest else b ∷ bs

-- The number that bytes spell, the highest first.
abbrev pub number_from : ℕ → List ℕ → ℕ
number_from n [] = n
number_from n (b ∷ bs) = number_from (n * 256 + b) bs

abbrev pub starts_with_zero : List ℕ → Bool
starts_with_zero [] = false
starts_with_zero (b ∷ bs) = b == 0

-- The bytes that are trimmed spell the same number, and do not start with a zero.
pub number_from-trimleadingzeros :
    (bs : List ℕ)
    → (number_from 0 (trimleadingzeros bs) ≡ number_from 0 bs)
      × (starts_with_zero (trimleadingzeros bs) ≡ false)
unfolding trimleadingzeros
number_from-trimleadingzeros [] = (refl, refl)
number_from-trimleadingzeros (b ∷ bs) =
    let (n, s) = number_from-trimleadingzeros bs in by_test n s (b == 0) refl
  where
    by_test :
        number_from 0 (trimleadingzeros bs) ≡ number_from 0 bs
        → starts_with_zero (trimleadingzeros bs) ≡ false
        → (c : Bool) → (b == 0) ≡ c
        → (number_from 0 (if c then trimleadingzeros bs else b ∷ bs) ≡ number_from 0 (b ∷ bs))
          × (starts_with_zero (if c then trimleadingzeros bs else b ∷ bs) ≡ false)
    by_test n s true e =
        let zero_lem : 0 ≡ 0 * 256 + b = ground (arith, e) in
        (n ∙ ap (λ x. number_from x bs) zero_lem, s)
    by_test n s false e = (refl, e)

-- The size of the buffer, and what is written to it; `none` is the call of abort.
unfoldable pub key_data_size : List ℕ → List ℕ → ℕ
key_data_size exponent modulus =
    if leb (length exponent) 255
    then length exponent + length modulus + 1
    else length exponent + length modulus + 1 + 2

unfoldable pub key_data : List ℕ → List ℕ → Option (List ℕ)
key_data exponent modulus =
    if leb (length exponent) 255
    then some (length exponent ∷ (exponent ++ modulus))
    else (if leb (length exponent) 65535
        then some (0 ∷ length exponent / 256 ∷ length exponent % 256 ∷ (exponent ++ modulus))
        else none)

-- What RFC 3110 makes of such bytes: an exponent and a modulus.
abbrev split_at : ℕ → List ℕ → Option (List ℕ × List ℕ)
split_at n bs = if leb n (length bs) then some (take n bs, drop n bs) else none

unfoldable pub rfc3110 : List ℕ → Option (List ℕ × List ℕ)
rfc3110 [] = none
rfc3110 (suc n ∷ bs) = split_at (suc n) bs
rfc3110 (zero ∷ high ∷ low ∷ bs) = split_at (high * 256 + low) bs
rfc3110 (zero ∷ _) = none

take-append : (xs ys : List ℕ) → take (length xs) (xs ++ ys) ≡ xs
take-append [] ys = refl
take-append (x ∷ xs) ys = ap (λ l. x ∷ l) (take-append xs ys)

drop-append : (xs ys : List ℕ) → drop (length xs) (xs ++ ys) ≡ ys
drop-append [] ys = refl
drop-append (x ∷ xs) ys = drop-append xs ys

split-append : (xs ys : List ℕ) → split_at (length xs) (xs ++ ys) ≡ some (xs, ys)
split-append xs ys = ground (arith, length-append xs ys, take-append xs ys, drop-append xs ys)

-- The key data that keytag makes of an exponent of 1 to 65535 bytes and a modulus fills its buffer
-- exactly, and read as RFC 3110 says it gives them back.
pub rfc3110-key_data :
    (exponent modulus : List ℕ)
    → 0 < length exponent
    → length exponent < 65536
    → (bytes : List ℕ) × (key_data exponent modulus ≡ some bytes)
      × (length bytes ≡ key_data_size exponent modulus)
      × (rfc3110 bytes ≡ some (exponent, modulus))
unfolding key_data key_data_size rfc3110
rfc3110-key_data [] modulus positive small = absurd (omega arith)
rfc3110-key_data (b ∷ bs) modulus positive small = by_length (leb (length (b ∷ bs)) 255) refl
  where
    by_length :
        (c : Bool)
        → leb (length (b ∷ bs)) 255 ≡ c
        → (bytes : List ℕ) × (key_data (b ∷ bs) modulus ≡ some bytes)
          × (length bytes ≡ key_data_size (b ∷ bs) modulus)
          × (rfc3110 bytes ≡ some (b ∷ bs, modulus))
    by_length true e = (
      length (b ∷ bs) ∷ ((b ∷ bs) ++ modulus),
      ground (arith, e),
      ground (arith, e, length-append (b ∷ bs) modulus),
      split-append (b ∷ bs) modulus,
    )
    by_length false e =
        let n : ℕ = length (b ∷ bs) in
        let same : n / 256 * 256 + n % 256 ≡ n = omega arith in
        (
          0 ∷ n / 256 ∷ n % 256 ∷ ((b ∷ bs) ++ modulus),
          ground (arith, e, small),
          ground (arith, e, length-append (b ∷ bs) modulus),
          ap (λ k. split_at k ((b ∷ bs) ++ modulus)) same ∙ split-append (b ∷ bs) modulus,
        )
