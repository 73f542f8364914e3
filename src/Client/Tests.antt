-- ===== src/Client/Tests.antt =====
-- A query of one field taken apart, and the command sign.
use volans.Prelude.{
  ℕ, ◌≡◌, ◌≢◌, refl, ap, ◌∙◌, ◌<◌, All-map, Option, none, some, List, [], ◌∷◌, ◌++◌, ◌==◌, arith,
  if◌then◌else◌, All,
}
use volans.Prelude.Int.{pos}
use volans.Text.{is_equal, strcmp, codes}
use volans.Client.{command_url, handler_sign}
use volans.Client.Serial.{FindsOne, IsSmall, question, equals, handler_sign-command_url}

abbrev with_byte : ℕ → List ℕ × List ℕ → List ℕ × List ℕ
with_byte b (front, rest) = (b ∷ front, rest)

-- A text cut at the first such byte.
abbrev cut : ℕ → List ℕ → List ℕ × List ℕ
cut c [] = ([], [])
cut c (b ∷ bs) = let more = cut c bs in if b == c then ([], bs) else with_byte b more

cut-append :
    (c : ℕ) (front rest : List ℕ)
    → All (λ b. b ≢ c) front
    → cut c (front ++ c ∷ rest) ≡ (front, rest)
cut-append c [] rest h = ground arith
cut-append c (b ∷ bs) rest h = ground (arith, h.0, cut-append c bs rest h.1)

abbrev found : List ℕ → List ℕ × List ℕ → Option (List ℕ)
found wanted (key, value) = if is_equal (strcmp wanted key) then some value else none

abbrev find_one : List ℕ → List ℕ → Option (List ℕ)
find_one uri wanted = found wanted (cut equals (cut question uri).1)

-- Small letters are no separators.
small_letters : (c : ℕ) (bs : List ℕ) → c < 97 → All IsSmall bs → All (λ b. b ≢ c) bs
small_letters c bs h small =
    All-map IsSmall (λ b. b ≢ c) bs (λ b s e. omega (arith, h, s.0, e)) small

finds_one : FindsOne find_one
finds_one path key value wanted p k w kn n v =
    ap (λ c. found wanted (cut equals c.1))
      (cut-append question (47 ∷ path) (key ++ equals ∷ value)
        ((λ e. omega (arith, e)), small_letters question path (omega arith) p))
    ∙ ap (found wanted) (cut-append equals key value (small_letters equals key (omega arith) k))

handler_sign-command_url_example :
    (uri : List ℕ) × (command_url (codes "sign") (codes "12" ∷ []) ≡ some uri)
    × (handler_sign find_one uri (pos 1)
        ≡ some (pos 1, record { serial = some (pos 1); filename = none }))
handler_sign-command_url_example =
    handler_sign-command_url find_one finds_one (codes "12") (pos 12) (pos 1) refl
