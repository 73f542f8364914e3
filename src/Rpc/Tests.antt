-- ===== src/Rpc/Tests.antt =====
-- A request for the zone example with one record, in a document whose values are known by numbers:
-- 0 is the object of the body, 1 its version, 2 its entities, 3 the one entity, 4 a text and 5 a
-- number.
use volans.Prelude.{
  ℕ, zero, ◌≡◌, ◌↔◌, refl, Bool, true, Option, none, some, List, [], ◌∷◌, arith, ◌==◌,
  if◌then◌else◌, length,
}
use volans.Text.{codes, is_equal, strcmp}
use volans.Samples.{Sample, a_record}
use volans.Rpc.{Jansson, decode_rrs, decode_url, rpc_decode_json}
use volans.Rpc.Url.{joined, decode_url-joined}
use volans.Rpc.Decode.{rpc_decode_json_fails, BadTransaction}

abbrev is : List ℕ → List ℕ → Bool
is a b = is_equal (strcmp a b)

abbrev get : ℕ → List ℕ → Option ℕ
get zero key =
    if is key (codes "apiversion")
    then some 1
    else (if is key (codes "entities") then some 2 else some 5)
get _ key = some 4

abbrev text_at : ℕ → Option (List ℕ)
text_at n = if n == 5 then none else some (codes "x")

abbrev sample_json : Jansson ℕ
sample_json = record {
  loadb = λ buf. some 0;
  is_object = λ n. if n == 0 then true else n == 3;
  is_string = λ n. if n == 1 then true else n == 4;
  is_array = λ n. n == 2;
  object_get = get;
  string_value = text_at;
  array = λ n. 3 ∷ [];
}

abbrev new_rr : List ℕ → List ℕ → Option Sample
new_rr text origin = some (a_record (length text))

abbrev url : List ℕ
url = joined (codes "api") (codes "v1") (codes "changename") (codes "example") (codes "a")

decode_url-joined_example :
    decode_url url
    ≡ some (record {
      version = codes "v1";
      opc = codes "changename";
      zone = some (codes "example");
      delegation_point = codes "a";
    })
decode_url-joined_example =
    decode_url-joined (codes "api") (codes "v1") (codes "changename") (codes "example") (codes "a")
      (ground arith) (ground arith) (ground arith) (ground arith) (ground arith)

decodes_two : decode_rrs sample_json new_rr (3 ∷ 3 ∷ []) ≡ some (a_record 9 ∷ a_record 9 ∷ [])
unfolding decode_rrs
decodes_two = refl

rpc_decode_json_fails_example :
    (rpc_decode_json sample_json new_rr url [] ≡ none) ↔ BadTransaction sample_json new_rr url []
rpc_decode_json_fails_example = rpc_decode_json_fails sample_json new_rr url []

fails_here : rpc_decode_json sample_json new_rr url [] ≡ none
unfolding rpc_decode_json
fails_here = refl
