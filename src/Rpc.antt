-- ===== src/Rpc.antt =====
-- rpc.c and the types of httpd.h: a request to change a zone, decoded from the URL and the JSON text
-- of its body.
pub mod Url
pub mod Decode
mod Tests
use volans.Prelude.{
  ℕ, Bool, true, false, not, Option, none, some, List, [], ◌∷◌, ◌++◌, ◌==◌, if◌then◌else◌, length,
  take,
}
use volans.Text.{is_equal, strcmp, codes}

pub data Opcode : Type 0 where
  rpc_change_delegation : Opcode
  rpc_change_name : Opcode

pub data Status : Type 0 where
  rpc_ok : Status
  rpc_err : Status
  rpc_resource_not_found : Status

-- `struct rpc`, with the count and the array of its records as one list.
pub record Rpc (Rr : Type 0) : Type 0 where
  pub opc : Opcode
  pub zone : List ℕ
  pub version : List ℕ
  pub detail_version : List ℕ
  pub correlation : Option (List ℕ)
  pub delegation_point : List ℕ
  pub rr : List Rr
  pub status : Status

infixl 5 ◌>>=◌
abbrev pub ◌>>=◌ {ℓ κ} : {A : Type ℓ} {B : Type κ} → Option A → (A → Option B) → Option B
none >>= f = none
some a >>= f = f a

-- strtok_r with the delimiter '/': the next token, and the text behind it.
abbrev pub slash : ℕ
slash = 47

abbrev pub skip_slashes : List ℕ → List ℕ
skip_slashes [] = []
skip_slashes (b ∷ bs) = let rest = skip_slashes bs in if b == slash then rest else b ∷ bs

abbrev pub with_byte : ℕ → List ℕ × List ℕ → List ℕ × List ℕ
with_byte b (token, rest) = (b ∷ token, rest)

abbrev pub to_slash : List ℕ → List ℕ × List ℕ
to_slash [] = ([], [])
to_slash (b ∷ bs) = let more = to_slash bs in if b == slash then ([], bs) else with_byte b more

abbrev pub token_at : List ℕ → Option (List ℕ) × List ℕ
token_at [] = (none, [])
token_at (b ∷ bs) = let (token, rest) = to_slash (b ∷ bs) in (some token, rest)

unfoldable pub strtok : List ℕ → Option (List ℕ) × List ℕ
strtok text = token_at (skip_slashes text)

-- The parts of a URL that are used, `none` for a URL that is refused.
pub record Parts : Type 0 where
  pub version : List ℕ
  pub opc : List ℕ
  pub zone : Option (List ℕ)
  pub delegation_point : List ℕ

abbrev pub parts_of :
    Option (List ℕ)
    → Option (List ℕ)
    → Option (List ℕ)
    → Option (List ℕ)
    → Option (List ℕ)
    → Option Parts
parts_of (some api) (some version) (some opc) zone (some point) =
    some (record { version = version; opc = opc; zone = zone; delegation_point = point })
parts_of _ _ _ _ _ = none

unfoldable pub decode_url : List ℕ → Option Parts
unfolding strtok
decode_url url =
    let (api, url1) = strtok url in
    let (version, url2) = strtok url1 in
    let (opc, url3) = strtok url2 in
    let (zone, url4) = strtok url3 in
    let (point, url5) = strtok url4 in parts_of api version opc zone point

-- The comparisons with strcmp of the opcode.
unfoldable pub opcode_of : List ℕ → Option Opcode
opcode_of text =
    if is_equal (strcmp text (codes "changedelegation"))
    then some rpc_change_delegation
    else (if is_equal (strcmp text (codes "changename")) then some rpc_change_name else none)

-- What rpc.c uses of jansson: `loadb` is json_loadb, and `none` is NULL.
pub record Jansson (Json : Type 0) : Type 0 where
  pub loadb : List ℕ → Option Json
  pub is_object : Json → Bool
  pub is_string : Json → Bool
  pub is_array : Json → Bool
  pub object_get : Json → List ℕ → Option Json
  pub string_value : Json → Option (List ℕ)
  pub array : Json → List Json

module _ {Json Rr : Type 0} (js : Jansson Json) (rr_new_frm_str : List ℕ → List ℕ → Option Rr) where
  -- A field that has to be a string.
  abbrev pub string_field : Json → List ℕ → Option (List ℕ)
  string_field dict key = do
    value ← js.object_get dict key
    if js.is_string value then js.string_value value else none

  -- "%s %s %s %s %s", cut off at 65535 bytes.
  abbrev pub rr_text : List ℕ → List ℕ → List ℕ → List ℕ → List ℕ → List ℕ
  rr_text owner ttl class type rdata =
      take 65535 (owner ++ 32 ∷ (ttl ++ 32 ∷ (class ++ 32 ∷ (type ++ 32 ∷ rdata))))

  -- The body of the loop over the entities. `rr_new_frm_str` is ldns_rr_new_frm_str for a text and
  -- an origin.
  unfoldable pub decode_rr : Json → Option Rr
  decode_rr dict =
      if js.is_object dict
      then (do
        owner ← string_field dict (codes "name")
        class ← string_field dict (codes "class")
        type ← string_field dict (codes "type")
        ttl ← string_field dict (codes "ttl")
        rdata ← string_field dict (codes "rdata")
        rr_new_frm_str (rr_text owner ttl class type rdata) owner)
      else none

  abbrev pub push_rr : Option Rr → Option (List Rr) → Option (List Rr)
  push_rr none rest = none
  push_rr (some rr) none = none
  push_rr (some rr) (some rest) = some (rr ∷ rest)

  unfoldable pub decode_rrs : List Json → Option (List Rr)
  unfolding decode_rr
  decode_rrs [] = some []
  decode_rrs (e ∷ es) = push_rr (decode_rr e) (decode_rrs es)

  -- The checks of the JSON text: the version, the correlation as a value, and the records.
  unfoldable pub decode_body : List ℕ → Option (List ℕ × Option Json × List Rr)
  unfolding decode_rrs
  decode_body buf = do
    root ← js.loadb buf
    if js.is_object root
        then (do
          version ← string_field root (codes "apiversion")
          entities ← js.object_get root (codes "entities")
          if js.is_array entities
              then (do
                rrs ← decode_rrs (js.array entities)
                some (version, js.object_get root (codes "transaction"), rrs))
              else none)
        else none

  -- strdup of the value of a string, `none` for strdup of NULL.
  abbrev pub duplicate : Option Json → Option (Option (List ℕ))
  duplicate none = some none
  duplicate (some value) = elim (js.string_value value) [ none ↦ none | some t ↦ some (some t) ]

  abbrev pub rpc_of : List ℕ → Option Json → List Rr → Parts → Opcode → Option (Option (Rpc Rr))
  rpc_of detail transaction rrs parts opc = do
    zone ← parts.zone
    correlation ← duplicate transaction
    some (
        some (record {
          opc = opc;
          zone = zone;
          version = parts.version;
          detail_version = detail;
          correlation = correlation;
          delegation_point = parts.delegation_point;
          rr = rrs;
          status = rpc_ok;
        }))

  abbrev pub rpc_for : List ℕ → Option Json → List Rr → Option Parts → Option (Option (Rpc Rr))
  unfolding opcode_of
  rpc_for detail transaction rrs none = some none
  rpc_for detail transaction rrs (some parts) = elim (opcode_of parts.opc) [
    | none ↦ some none
    | some opc ↦ rpc_of detail transaction rrs parts opc
  ]

  -- `rpc_decode_json`: `some none` is NULL, and `none` is strdup of NULL.
  unfoldable pub rpc_decode_json : List ℕ → List ℕ → Option (Option (Rpc Rr))
  unfolding decode_body decode_url rpc_for
  rpc_decode_json url buf = elim (decode_body buf) [
    | none ↦ some none
    | some (detail, transaction, rrs) ↦ rpc_for detail transaction rrs (decode_url url)
  ]

-- `rpc_encode_json`: the result, and the answer, which is empty.
unfoldable pub rpc_encode_json : {Rr : Type 0} → Rpc Rr → ℕ × List ℕ
rpc_encode_json rpc = (0, [])
