-- ===== src/Client/Serial.antt =====
-- The serial of a request that the client of volans.c sends and a handler of cmdhandler.c takes.
use volans.Prelude.{
  ℕ, zero, suc, ◌+◌, ◌/◌, ◌%◌, ◌<◌, ltb, ◌&&◌, ◌||◌, ◌==◌, All-append, ◌≡◌, ◌≢◌, refl, ap, Bool,
  true, false, Option, none, some, List, [], ◌∷◌, ◌++◌, arith, if◌then◌else◌, All,
}
use volans.Prelude.Int.{ℤ, pos, negsuc}
use volans.Text.{is_equal, strcmp, codes, decimal, decimal_within, decimal_ℤ, atoi}
use volans.Client.{command_url, handler_sign, handler_output, serial_url, with_serial, serial_after}

-- What libevent documents of the query of a URI, for a path of one name and one field, whose names
-- are of small letters, as the wanted one is, and not empty, and whose value is not empty and stands for itself:
-- the field is found by its name and no other is. (Names are compared without regard to case.)
abbrev pub question : ℕ
question = 63

abbrev pub equals : ℕ
equals = 61

-- A small letter, and one of the bytes that stand for themselves in a query: a digit, a small or
-- capital letter, or one of - . / and _.
abbrev pub IsSmall : ℕ → Type 0
IsSmall b = (96 < b) × (b < 123)

abbrev pub is_plain : ℕ → Bool
is_plain b =
    (ltb 44 b && ltb b 58) || ((ltb 64 b && ltb b 91) || ((ltb 96 b && ltb b 123) || b == 95))

abbrev pub IsPlain : ℕ → Type 0
IsPlain b = is_plain b ≡ true

abbrev pub FindsOne : (List ℕ → List ℕ → Option (List ℕ)) → Type 0
FindsOne find =
    (path key value wanted : List ℕ)
    → All IsSmall path
    → All IsSmall key
    → All IsSmall wanted
    → key ≢ []
    → value ≢ []
    → All IsPlain value
    → find (47 ∷ (path ++ question ∷ (key ++ equals ∷ value))) wanted
      ≡ (if is_equal (strcmp wanted key) then some value else none)

digit-IsPlain : (d : ℕ) → d < 10 → IsPlain (48 + d)
digit-IsPlain d h = ground (arith, h)

decimal_within-IsPlain : (fuel n : ℕ) → All IsPlain (decimal_within fuel n)
decimal_within-IsPlain zero n = (digit-IsPlain (n % 10) (omega arith), tt)
decimal_within-IsPlain (suc fuel) n = by_size (ltb n 10) refl (
    All-append IsPlain (decimal_within fuel (n / 10)) ((48 + n % 10) ∷ [])
      (decimal_within-IsPlain fuel (n / 10)) (digit-IsPlain (n % 10) (omega arith), tt))
  where
    by_size :
        (c : Bool)
        → ltb n 10 ≡ c
        → All IsPlain (decimal_within fuel (n / 10) ++ (48 + n % 10) ∷ [])
        → All IsPlain
            (if c then (48 + n) ∷ [] else decimal_within fuel (n / 10) ++ (48 + n % 10) ∷ [])
    by_size true e h = (digit-IsPlain n (ground (arith, e)), tt)
    by_size false e h = h

decimal-IsPlain : (n : ℕ) → All IsPlain (decimal n)
unfolding decimal
decimal-IsPlain n = decimal_within-IsPlain 19 n

decimal-nonempty : (n : ℕ) → decimal n ≢ []
unfolding decimal
decimal-nonempty n h = nonempty (ltb n 10) (decimal_within 18 (n / 10)) h
  where
    nonempty :
        (c : Bool) (front : List ℕ)
        → (if c then (48 + n) ∷ [] else front ++ (48 + n % 10) ∷ []) ≡ []
        → ⊥
    nonempty true front h = cc h
    nonempty false [] h = cc h
    nonempty false (x ∷ xs) h = cc h

decimal_ℤ-IsPlain : (z : ℤ) → All IsPlain (decimal_ℤ z)
decimal_ℤ-IsPlain (pos n) = decimal-IsPlain n
decimal_ℤ-IsPlain (negsuc n) = (refl, decimal-IsPlain (suc n))

decimal_ℤ-nonempty : (z : ℤ) → decimal_ℤ z ≢ []
decimal_ℤ-nonempty (pos n) h = decimal-nonempty n h
decimal_ℤ-nonempty (negsuc n) h = cc h

module _ (find_header : List ℕ → List ℕ → Option (List ℕ)) (finds : FindsOne find_header) where
  -- Where the client is told to sign with a new serial, the daemon signs with the serial that it
  -- had. The lookup of libevent finds, in the query of a path and one field, of small letters and
  -- with a value of bytes that stand for themselves, that field by its name and no other.
  pub handler_sign-command_url :
      (text : List ℕ) (new serial : ℤ)
      → atoi text ≡ some new
      → (uri : List ℕ) × (command_url (codes "sign") (text ∷ []) ≡ some uri)
        × (handler_sign find_header uri serial
            ≡ some (serial, record { serial = some serial; filename = none }))
  unfolding command_url handler_sign
  handler_sign-command_url text new serial e = (
    codes "/sign?serial=" ++ decimal_ℤ new,
    ap (serial_url (codes "/sign?serial=")) e,
    ap (λ o. with_serial find_header none (serial_after find_header o serial))
        (finds (codes "sign") (codes "serial") (decimal_ℤ new) (codes "newserial") (ground arith)
          (ground arith) (ground arith) (λ e. cc e) (decimal_ℤ-nonempty new)
          (decimal_ℤ-IsPlain new)),
  )

  -- The file that the client names for the command output, with none of the bytes that separate or
  -- encode, is the one that the zone is written to.
  pub handler_output-command_url :
      (name : List ℕ) (serial : ℤ)
      → name ≢ []
      → All IsPlain name
      → (uri : List ℕ) × (command_url (codes "output") (name ∷ []) ≡ some uri)
        × (handler_output find_header uri serial
            ≡ some (serial, record { serial = none; filename = some name }))
  unfolding command_url handler_output
  handler_output-command_url name serial n plain = (
    codes "/output?output=" ++ name,
    refl,
    ap (λ o. some (serial, record { serial = none; filename = o }))
        (finds (codes "output") (codes "output") name (codes "output") (ground arith) (ground arith)
          (ground arith) (λ e. cc e) n plain),
  )
