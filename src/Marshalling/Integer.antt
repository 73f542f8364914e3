-- ===== src/Marshalling/Integer.antt =====
-- Reading integers and texts that `marshallinteger` and `marshallstring` wrote.
use volans.Prelude.{
  ℕ, zero, suc, ◌+◌, ◌*◌, ◌/◌, ◌%◌, ◌^◌, ◌<◌, ◌≡◌, refl, ◌∙◌, ap, Option, none, some, List, [], ◌∷◌,
  ◌++◌, append_assoc, arith, length, All,
}
use volans.Prelude.Int.{ℤ, pos, negsuc}
use volans.Marshalling.{
  Reader, ◌>>=◌, take_bytes, word, int_of, write_integer, read_integer, text_of, write_string,
  read_string,
}

-- A step of a reader that succeeds.
pub bind_lem :
    {A B : Type 0} (m : Reader A) (k : A → Reader B) (bytes : List ℕ) {a : A} {rest : List ℕ}
    → m bytes ≡ some (a, rest)
    → (m >>= k) bytes ≡ k a rest
bind_lem m k bytes e = rw e

-- The range of `int`.
abbrev pub IsInt : ℤ → Type 0
IsInt (pos n) = n < 2 ^ 31
IsInt (negsuc n) = n < 2 ^ 31

bytes_of_word :
    (w : ℕ)
    → w < 2 ^ 32
    → w % 256 + 256 * (w / 256 % 256) + 65536 * (w / 65536 % 256) + 16777216 * (w / 16777216 % 256)
      ≡ w
bytes_of_word w h = omega arith

pub int_of-word : (z : ℤ) → IsInt z → int_of (word z) ≡ z
int_of-word (pos n) h = ground arith
int_of-word (negsuc n) h = ground arith

pub word-lt : (z : ℤ) → word z < 2 ^ 32
word-lt (pos n) = omega arith
word-lt (negsuc n) = omega arith

-- An `int` is read back as it was written.
pub read_integer-write :
    (z : ℤ) (rest : List ℕ) → IsInt z → read_integer (write_integer z ++ rest) ≡ some (z, rest)
unfolding read_integer write_integer
read_integer-write z rest h =
    ap (λ v. some (int_of v, rest)) (bytes_of_word (word z) (word-lt z))
    ∙ ap (λ v. some (v, rest)) (int_of-word z h)

pub take_bytes-append : (bs rest : List ℕ) → take_bytes (length bs) (bs ++ rest) ≡ some (bs, rest)
unfolding take_bytes
take_bytes-append [] rest = refl
take_bytes-append (b ∷ bs) rest = ground (arith, take_bytes-append bs rest)

pub text_of_text : (bs : List ℕ) → All (λ b. 0 < b) bs → text_of bs ≡ bs
unfolding text_of
text_of_text [] h = refl
text_of_text (zero ∷ bs) h = absurd (omega arith)
text_of_text (suc c ∷ bs) h = ap (λ r. suc c ∷ r) (text_of_text bs h.1)

-- A text of the source: no NUL, and its length is an `int`.
abbrev pub IsText : List ℕ → Type 0
IsText s = All (λ b. 0 < b) s × (length s < 2 ^ 31)

abbrev pub IsTextOrNull : Option (List ℕ) → Type 0
IsTextOrNull none = Unit
IsTextOrNull (some s) = IsText s

-- A text without NUL and shorter than 2^31, or NULL, is read back as it was written, whatever
-- follows it.
pub read_string-write :
    (s : Option (List ℕ)) (rest : List ℕ)
    → IsTextOrNull s
    → read_string (write_string s ++ rest) ≡ some (s, rest)
unfolding read_string write_string
read_string-write none rest h =
    bind_lem read_integer _ _ (read_integer-write (negsuc 0) rest (omega arith))
read_string-write (some s) rest h = rw append_assoc (
    bind_lem read_integer _ _ (read_integer-write (pos (length s)) (s ++ rest) h.1)
    ∙ bind_lem (take_bytes (length s)) _ _ (take_bytes-append s rest)
    ∙ ap (λ r. some (some r, rest)) (text_of_text s h.0))
