-- ===== src/Marshalling.antt =====
-- marshalling.c in its modes READ and WRITE: how values are laid out in a file.
pub mod Integer
pub mod Layout
pub mod Storable
pub mod RoundTrip
pub mod Dump
mod Tests
use volans.Prelude.{
  ℕ, zero, suc, ◌+◌, ◌-◌, ◌*◌, ◌/◌, ◌%◌, ◌^◌, Bool, true, false, Option, none, some, List, [], ◌∷◌,
  ◌++◌, map, ltb, ◌==◌, if◌then◌else◌, length,
}
use volans.Prelude.Int.{ℤ, pos, negsuc}
use volans.Ldns.{Ldns}

-- What is read: the value and the bytes that follow. `none` is a failed assertion, a short read, or
-- a value that is left undefined.
abbrev pub Reader : Type 0 → Type 0
Reader A = List ℕ → Option (A × List ℕ)

abbrev continue : {A B : Type 0} → Option (A × List ℕ) → (A → Reader B) → Option (B × List ℕ)
continue none k = none
continue (some (a, rest)) k = k a rest

infixl 5 ◌>>=◌
abbrev pub ◌>>=◌ : {A B : Type 0} → Reader A → (A → Reader B) → Reader B
◌>>=◌ m k bytes = continue (m bytes) k

abbrev pub pure : {A : Type 0} → A → Reader A
pure a bytes = some (a, bytes)

-- `read` and `write` of a given number of bytes.
unfoldable pub take_bytes : ℕ → Reader (List ℕ)
take_bytes zero bytes = some ([], bytes)
take_bytes (suc n) [] = none
take_bytes (suc n) (b ∷ bytes) = elim (take_bytes n bytes) [
  | none ↦ none
  | some (bs, rest) ↦ some (b ∷ bs, rest)
]

-- An `int` in memory: four bytes, the lowest first, in two's complement.
abbrev pub word : ℤ → ℕ
word (pos n) = n % 2 ^ 32
word (negsuc n) = 2 ^ 32 - 1 - n % 2 ^ 32

abbrev pub int_of : ℕ → ℤ
int_of w = if ltb w (2 ^ 31) then pos w else negsuc (2 ^ 32 - 1 - w)

-- `marshallinteger`
unfoldable pub write_integer : ℤ → List ℕ
write_integer z =
    let w = word z in w % 256 ∷ w / 256 % 256 ∷ w / 65536 % 256 ∷ w / 16777216 % 256 ∷ []

unfoldable pub read_integer : Reader ℤ
read_integer (a ∷ b ∷ c ∷ d ∷ rest) = some (int_of (a + 256 * b + 65536 * c + 16777216 * d), rest)
read_integer _ = none

-- The text in a buffer of bytes with a NUL behind them.
unfoldable pub text_of : List ℕ → List ℕ
text_of [] = []
text_of (zero ∷ bs) = []
text_of (suc c ∷ bs) = suc c ∷ text_of bs

-- `marshallstring`; `none` is NULL, written as the length -1.
unfoldable pub write_string : Option (List ℕ) → List ℕ
write_string none = write_integer (negsuc 0)
write_string (some s) = write_integer (pos (length s)) ++ s

abbrev pub read_text : ℤ → Reader (Option (List ℕ))
read_text (pos n) = do bs ← take_bytes n; pure (some (text_of bs))
read_text (negsuc _) = pure none

unfoldable pub read_string : Reader (Option (List ℕ))
read_string = do len ← read_integer; read_text len

module _ {Rr : Type 0} ⦃l : Ldns Rr⦄ where
  -- `marshallldnsrr` of a record that is not NULL. `none` is a text that ldns refuses, which leaves
  -- the pointer as it was, and the length -1 of NULL.
  unfoldable pub write_ldnsrr : Rr → List ℕ
  write_ldnsrr rr = write_integer (pos (length (l.text rr))) ++ l.text rr

  abbrev pub parsed : Option Rr → Reader Rr
  parsed none bytes = none
  parsed (some rr) bytes = some (rr, bytes)

  abbrev pub read_rr : ℤ → Reader Rr
  read_rr (pos n) = do bs ← take_bytes n; parsed (l.parse (text_of bs))
  read_rr (negsuc _) = parsed none

  unfoldable pub read_ldnsrr : Reader Rr
  read_ldnsrr = do len ← read_integer; read_rr len

-- The loop over the members of an array.
unfoldable pub read_many : {A : Type 0} → Reader A → ℕ → Reader (List A)
read_many m zero = pure []
read_many m (suc n) = do a ← m; more ← read_many m n; pure (a ∷ more)

unfoldable pub write_many : {A : Type 0} → (A → List ℕ) → List A → List ℕ
write_many f [] = []
write_many f (x ∷ xs) = f x ++ write_many f xs

-- `marshalling` with `marshall_OPTIONAL`: NULL is the count -1, and anything else the count 1 and
-- the value. The value behind a pointer to several read values is the first; with the count 0
-- nothing is read into it, and it is undefined.
unfoldable pub write_optional : {A : Type 0} → (A → List ℕ) → Option A → List ℕ
write_optional f none = write_integer (negsuc 0)
write_optional f (some a) = write_integer (pos 1) ++ f a

abbrev pub first_of_read : {A : Type 0} → List A → Reader (Option A)
first_of_read [] bytes = none
first_of_read (a ∷ more) bytes = some (some a, bytes)

abbrev pub read_counted : {A : Type 0} → Reader A → ℤ → Reader (Option A)
read_counted m (pos n) = do values ← read_many m n; first_of_read values
read_counted m (negsuc _) = pure none

unfoldable pub read_optional : {A : Type 0} → Reader A → Reader (Option A)
read_optional m = do count ← read_integer; read_counted m count
