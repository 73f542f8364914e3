-- ===== src/Zonesign/Digests.antt =====
-- `signrecordpartial` of zonesignrecord.c: the digest of an algorithm, what is signed, and the count
-- of labels of a signature.
use volans.Prelude.{
  ℕ, ◌+◌, ◌-◌, ◌≡◌, ◌≢◌, ◌<◌, refl, Bool, true, false, not, ◌&&◌, List, [], ◌∷◌, ◌++◌, arith, ◌==◌,
  if◌then◌else◌, length, ltb,
}

-- The cases of `ldns_signing_algorithm`; any other one aborts.
pub data Algorithm : Type 0 where
  rsamd5 : Algorithm
  rsasha1 : Algorithm
  rsasha1_nsec3 : Algorithm
  rsasha256 : Algorithm
  rsasha512 : Algorithm
  dsa : Algorithm
  dsa_nsec3 : Algorithm
  ecc_gost : Algorithm
  ecdsap256sha256 : Algorithm
  ecdsap384sha384 : Algorithm

-- `digest_len`
abbrev pub digest_len : Algorithm → ℕ
digest_len rsamd5 = 16
digest_len rsasha1 = 20
digest_len rsasha1_nsec3 = 20
digest_len rsasha256 = 32
digest_len rsasha512 = 64
digest_len dsa = 20
digest_len dsa_nsec3 = 20
digest_len ecc_gost = 32
digest_len ecdsap256sha256 = 32
digest_len ecdsap384sha384 = 48

abbrev pub rsa_md5_id : List ℕ
rsa_md5_id =
    0x30 ∷ 0x20 ∷ 0x30 ∷ 0x0C ∷ 0x06 ∷ 0x08 ∷ 0x2A ∷ 0x86 ∷ 0x48 ∷ 0x86 ∷ 0xF7 ∷ 0x0D ∷ 0x02 ∷ 0x05
    ∷ 0x05 ∷ 0x00 ∷ 0x04 ∷ 0x10 ∷ []

abbrev pub rsa_sha1_id : List ℕ
rsa_sha1_id =
    0x30 ∷ 0x21 ∷ 0x30 ∷ 0x09 ∷ 0x06 ∷ 0x05 ∷ 0x2B ∷ 0x0E ∷ 0x03 ∷ 0x02 ∷ 0x1A ∷ 0x05 ∷ 0x00 ∷ 0x04
    ∷ 0x14 ∷ []

abbrev pub rsa_sha256_id : List ℕ
rsa_sha256_id =
    0x30 ∷ 0x31 ∷ 0x30 ∷ 0x0d ∷ 0x06 ∷ 0x09 ∷ 0x60 ∷ 0x86 ∷ 0x48 ∷ 0x01 ∷ 0x65 ∷ 0x03 ∷ 0x04 ∷ 0x02
    ∷ 0x01 ∷ 0x05 ∷ 0x00 ∷ 0x04 ∷ 0x20 ∷ []

abbrev pub rsa_sha512_id : List ℕ
rsa_sha512_id =
    0x30 ∷ 0x51 ∷ 0x30 ∷ 0x0d ∷ 0x06 ∷ 0x09 ∷ 0x60 ∷ 0x86 ∷ 0x48 ∷ 0x01 ∷ 0x65 ∷ 0x03 ∷ 0x04 ∷ 0x02
    ∷ 0x03 ∷ 0x05 ∷ 0x00 ∷ 0x04 ∷ 0x40 ∷ []

-- `digestprefix`, empty for NULL.
unfoldable pub digestprefix : Algorithm → List ℕ
digestprefix rsamd5 = rsa_md5_id
digestprefix rsasha1 = rsa_sha1_id
digestprefix rsasha1_nsec3 = rsa_sha1_id
digestprefix rsasha256 = rsa_sha256_id
digestprefix rsasha512 = rsa_sha512_id
digestprefix _ = []

-- The bytes that are signed: the prefix, and the digest behind it.
unfoldable pub signed_data : Algorithm → List ℕ → List ℕ
unfolding digestprefix
signed_data algorithm digest = digestprefix algorithm ++ digest

-- A value of DER in short form: a tag, its length below 128, and that many bytes; and what is in it
-- before an octet string that ends it.
abbrev pub IsDer : List ℕ → ℕ → Type 0
IsDer [] size = Unit
IsDer (tag ∷ []) size = ⊥
IsDer (tag ∷ n ∷ bs) size = (tag ≡ 0x30) × (n + 2 ≡ size) × (n < 128)

abbrev pub last_two : List ℕ → List ℕ
last_two [] = []
last_two (a ∷ []) = []
last_two (a ∷ b ∷ []) = a ∷ b ∷ []
last_two (a ∷ b ∷ c ∷ cs) = last_two (b ∷ c ∷ cs)

abbrev pub EndsInOctets : List ℕ → ℕ → Type 0
EndsInOctets [] n = Unit
EndsInOctets (b ∷ bs) n = last_two (b ∷ bs) ≡ 0x04 ∷ n ∷ []

-- What is signed is as long as its buffer, and for an algorithm with a prefix it is a DER sequence
-- of its own length whose prefix ends in the head of an octet string of the length of the digest.
pub signed_data-IsDer :
    (algorithm : Algorithm) (digest : List ℕ)
    → length digest ≡ digest_len algorithm
    → (length (signed_data algorithm digest)
        ≡ digest_len algorithm + length (digestprefix algorithm))
      × IsDer (digestprefix algorithm) (length (signed_data algorithm digest))
      × EndsInOctets (digestprefix algorithm) (digest_len algorithm)
unfolding signed_data digestprefix
signed_data-IsDer rsamd5 digest h = (omega (arith, h), (refl, omega (arith, h), omega arith), refl)
signed_data-IsDer rsasha1 digest h = (omega (arith, h), (refl, omega (arith, h), omega arith), refl)
signed_data-IsDer rsasha1_nsec3 digest h =
    (omega (arith, h), (refl, omega (arith, h), omega arith), refl)
signed_data-IsDer rsasha256 digest h =
    (omega (arith, h), (refl, omega (arith, h), omega arith), refl)
signed_data-IsDer rsasha512 digest h =
    (omega (arith, h), (refl, omega (arith, h), omega arith), refl)
signed_data-IsDer dsa digest h = (omega (arith, h), tt, tt)
signed_data-IsDer dsa_nsec3 digest h = (omega (arith, h), tt, tt)
signed_data-IsDer ecc_gost digest h = (omega (arith, h), tt, tt)
signed_data-IsDer ecdsap256sha256 digest h = (omega (arith, h), tt, tt)
signed_data-IsDer ecdsap384sha384 digest h = (omega (arith, h), tt, tt)

-- A name on the wire that starts with the label *, which is strncmp of its first two bytes with
-- "\001*" being 0.
abbrev pub is_wildcard : List ℕ → Bool
is_wildcard [] = false
is_wildcard (a ∷ []) = false
is_wildcard (a ∷ b ∷ bs) = (a == 1) && (b == 42)

-- `nlabels`, for a name with that many labels.
unfoldable pub nlabels : ℕ → List ℕ → ℕ
nlabels labels name = if ltb 0 labels && not (is_wildcard name) then labels - 1 else labels

-- The count that RFC 4034 asks for: without the root and without a label *.
abbrev pub labels_of_rfc4034 : ℕ → List ℕ → ℕ
labels_of_rfc4034 labels name = if is_wildcard name then labels - 1 else labels

-- For every name but the root, the count of labels that signrecordpartial puts into a signature is
-- not the one that RFC 4034 asks for.
pub nlabels-ne-labels_of_rfc4034 :
    (labels : ℕ) (name : List ℕ) → 0 < labels → nlabels labels name ≢ labels_of_rfc4034 labels name
unfolding nlabels
nlabels-ne-labels_of_rfc4034 labels name h e = wrong (is_wildcard name) labels h e
  where
    wrong :
        (w : Bool) (labels : ℕ)
        → 0 < labels
        → (if ltb 0 labels && not w then labels - 1 else labels)
          ≡ (if w then labels - 1 else labels)
        → ⊥
    wrong true labels h e = ground (arith, h, e)
    wrong false labels h e = ground (arith, h, e)
