-- ===== src/Rpc/Url.antt =====
-- strtok_r and the parts of a URL in rpc.c.
use volans.Prelude.{
  ℕ, ◌≡◌, ◌≢◌, refl, subst, Bool, true, false, Option, none, some, List, [], ◌∷◌, ◌++◌, arith, ◌==◌,
  All, if◌then◌else◌,
}
use volans.Rpc.{
  slash, skip_slashes, to_slash, token_at, with_byte, strtok, decode_url, Parts, parts_of,
}

-- A token has a byte, and no slash.
abbrev pub IsToken : List ℕ → Type 0
IsToken t = (t ≢ []) × All (λ b. b ≢ slash) t

to_slash-token :
    (t rest : List ℕ) → All (λ b. b ≢ slash) t → to_slash (t ++ slash ∷ rest) ≡ (t, rest)
to_slash-token [] rest h = refl
to_slash-token (b ∷ t) rest h = ground (arith, h.0, to_slash-token t rest h.1)

to_slash_end : (t : List ℕ) → All (λ b. b ≢ slash) t → to_slash t ≡ (t, [])
to_slash_end [] h = refl
to_slash_end (b ∷ t) h = ground (arith, h.0, to_slash_end t h.1)

strtok-token : (t rest : List ℕ) → IsToken t → strtok (t ++ slash ∷ rest) ≡ (some t, rest)
unfolding strtok
strtok-token [] rest h = absurd (h.0 refl)
strtok-token (b ∷ t) rest h = ground (arith, h.1.0, to_slash-token t rest h.1.1)

strtok-slash : (text : List ℕ) → strtok (slash ∷ text) ≡ strtok text
unfolding strtok
strtok-slash text = refl

strtok_last : (t : List ℕ) → IsToken t → strtok t ≡ (some t, [])
unfolding strtok
strtok_last [] h = absurd (h.0 refl)
strtok_last (b ∷ t) h = ground (arith, h.1.0, to_slash_end t h.1.1)

abbrev pub joined : List ℕ → List ℕ → List ℕ → List ℕ → List ℕ → List ℕ
joined api version opc zone point =
    slash ∷ (api ++ slash ∷ (version ++ slash ∷ (opc ++ slash ∷ (zone ++ slash ∷ point))))

-- A URL of five tokens, each behind a slash, is taken apart into them; a token is not empty and
-- has no slash.
pub decode_url-joined :
    (api version opc zone point : List ℕ)
    → IsToken api
    → IsToken version
    → IsToken opc
    → IsToken zone
    → IsToken point
    → decode_url (joined api version opc zone point)
      ≡ some (record { version = version; opc = opc; zone = some zone; delegation_point = point })
unfolding decode_url
decode_url-joined api version opc zone point ha hv ho hz hp = ground (
  arith,
  strtok-slash (api ++ slash ∷ (version ++ slash ∷ (opc ++ slash ∷ (zone ++ slash ∷ point)))),
  strtok-token api (version ++ slash ∷ (opc ++ slash ∷ (zone ++ slash ∷ point))) ha,
  strtok-token version (opc ++ slash ∷ (zone ++ slash ∷ point)) hv,
  strtok-token opc (zone ++ slash ∷ point) ho,
  strtok-token zone point hz,
  strtok_last point hp,
)

-- What strtok_r returns is a token, and behind the last one there is none.
abbrev IsPart : Option (List ℕ) × List ℕ → Type 0
IsPart (none, rest) = rest ≡ []
IsPart (some t, rest) = IsToken t

chosen_bytes :
    (b : ℕ) (bs : List ℕ) (c : Bool)
    → (b == slash) ≡ c
    → All (λ b. b ≢ slash) (to_slash bs).0
    → All (λ b. b ≢ slash) (if c then ([], bs) else with_byte b (to_slash bs)).0
chosen_bytes b bs true e h = tt
chosen_bytes b bs false e h = (ground (arith, e), h)

to_slash_bytes : (text : List ℕ) → All (λ b. b ≢ slash) (to_slash text).0
to_slash_bytes [] = tt
to_slash_bytes (b ∷ bs) = chosen_bytes b bs (b == slash) refl (to_slash_bytes bs)

to_slash_nonempty : (b : ℕ) (bs : List ℕ) → b ≢ slash → (to_slash (b ∷ bs)).0 ≢ []
to_slash_nonempty b bs h e = ground (arith, h, e)

chosen-IsPart :
    (b : ℕ) (bs : List ℕ) (c : Bool)
    → (b == slash) ≡ c
    → IsPart (token_at (skip_slashes bs))
    → IsPart (token_at (if c then skip_slashes bs else b ∷ bs))
chosen-IsPart b bs true e h = h
chosen-IsPart b bs false e h = (to_slash_nonempty b bs (ground (arith, e)), to_slash_bytes (b ∷ bs))

strtok-IsPart : (text : List ℕ) → IsPart (strtok text)
unfolding strtok
strtok-IsPart [] = refl
strtok-IsPart (b ∷ bs) = chosen-IsPart b bs (b == slash) refl (strtok-IsPart bs)

-- With the parts of a URL there are a version, an opcode, a zone and a delegation point, which are
-- tokens: the zone is not NULL although it is not tested.
abbrev pub HasTokens : Parts → Type 0
HasTokens p =
    IsToken p.version
    × IsToken p.opc
    × ((zone : List ℕ) × (p.zone ≡ some zone) × IsToken zone)
    × IsToken p.delegation_point

parts_of-HasTokens :
    (api version opc zone point : Option (List ℕ)) (r1 r2 r3 r4 r5 : List ℕ) (p : Parts)
    → IsPart (version, r2)
    → IsPart (opc, r3)
    → IsPart (zone, r4)
    → IsPart (point, r5)
    → (point, r5) ≡ strtok r4
    → parts_of api version opc zone point ≡ some p
    → HasTokens p
unfolding strtok
parts_of-HasTokens (some a) (some v) (some o) (some z) (some d) r1 r2 r3 r4 r5 p hv ho hz hd st e =
    let same : record { version = v; opc = o; zone = some z; delegation_point = d } ≡ p = cc e in
    subst HasTokens same (hv, ho, (z, refl, hz), hd)
parts_of-HasTokens (some a) (some v) (some o) none (some d) r1 r2 r3 r4 r5 p hv ho hz hd st e =
    absurd (ground (arith, hz, st))
parts_of-HasTokens (some a) (some v) (some o) z none r1 r2 r3 r4 r5 p hv ho hz hd st e = cc
parts_of-HasTokens (some a) (some v) none z d r1 r2 r3 r4 r5 p hv ho hz hd st e = cc
parts_of-HasTokens (some a) none o z d r1 r2 r3 r4 r5 p hv ho hz hd st e = cc
parts_of-HasTokens none v o z d r1 r2 r3 r4 r5 p hv ho hz hd st e = cc

pub decode_url-HasTokens : (url : List ℕ) (p : Parts) → decode_url url ≡ some p → HasTokens p
unfolding decode_url
decode_url-HasTokens url p e =
    let u1 = (strtok url).1 in
    let u2 = (strtok u1).1 in
    let u3 = (strtok u2).1 in
    let u4 = (strtok u3).1 in
    parts_of-HasTokens (strtok url).0 (strtok u1).0 (strtok u2).0 (strtok u3).0 (strtok u4).0 [] u2
      u3 u4 (strtok u4).1 p (strtok-IsPart u1) (strtok-IsPart u2) (strtok-IsPart u3)
      (strtok-IsPart u4) refl e
