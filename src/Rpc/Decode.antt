-- ===== src/Rpc/Decode.antt =====
-- `rpc_decode_json` of rpc.c: a correlation that is no string.
use volans.Prelude.{ℕ, ◌≡◌, ◌↔◌, refl, Option, none, some, List, arith, Option-cases, inl, inr}
use volans.Rpc.{
  Jansson, Parts, Opcode, decode_body, decode_url, opcode_of, rpc_decode_json, rpc_of, duplicate,
}
use volans.Rpc.Url.{decode_url-HasTokens}

module _ {Json Rr : Type 0} (js : Jansson Json) (rr_new_frm_str : List ℕ → List ℕ → Option Rr) where
  -- The request is not decoded and not refused, since NULL is copied, exactly if it is complete but
  -- for a correlation that is given and is no string.
  abbrev pub BadTransaction : List ℕ → List ℕ → Type 0
  BadTransaction url buf =
      (detail : List ℕ) × (value : Json) × (rrs : List Rr) × (parts : Parts) × (opc : Opcode)
      × (decode_body js rr_new_frm_str buf ≡ some (detail, some value, rrs))
      × (decode_url url ≡ some parts)
      × (opcode_of parts.opc ≡ some opc)
      × (js.string_value value ≡ none)

  duplicate_fails :
      (t : Option Json)
      → duplicate js rr_new_frm_str t ≡ none
      → (value : Json) × (t ≡ some value) × (js.string_value value ≡ none)
  duplicate_fails none h = cc
  duplicate_fails (some value) h = elim (Option-cases (js.string_value value)) [
    | inl e ↦ (value, refl, e)
    | inr (text, e) ↦ absurd (ground (arith, e, h))
  ]

  rpc_of_fails :
      (detail : List ℕ) (t : Option Json) (rrs : List Rr) (parts : Parts) (opc : Opcode)
      (zone : List ℕ)
      → parts.zone ≡ some zone
      → rpc_of js rr_new_frm_str detail t rrs parts opc ≡ none
      → duplicate js rr_new_frm_str t ≡ none
  rpc_of_fails detail t rrs parts opc zone z h =
      elim (Option-cases (duplicate js rr_new_frm_str t)) [
        | inl e ↦ e
        | inr (c, e) ↦ absurd (ground (arith, z, e, h))
      ]

  fails :
      (url buf : List ℕ) → rpc_decode_json js rr_new_frm_str url buf ≡ none → BadTransaction url buf
  unfolding rpc_decode_json
  fails url buf h = elim (Option-cases (decode_body js rr_new_frm_str buf)) [
    | inl e ↦ absurd (ground (arith, e, h))
    | inr ((detail, t, rrs), e) ↦ elim (Option-cases (decode_url url)) [
      | inl f ↦ absurd (ground (arith, e, f, h))
      | inr (parts, f) ↦ elim (Option-cases (opcode_of parts.opc)) [
        | inl g ↦ absurd (ground (arith, e, f, g, h))
        | inr (opc, g) ↦
            let (v, o, (zone, z, zt), d) = decode_url-HasTokens url parts f in
            let (value, te, se) =
              duplicate_fails t
                (rpc_of_fails detail t rrs parts opc zone z (ground (arith, e, f, g, h))) in
            (detail, value, rrs, parts, opc, ground (arith, e, te), f, g, se)
      ]
    ]
  ]

  failing :
      (url buf : List ℕ) → BadTransaction url buf → rpc_decode_json js rr_new_frm_str url buf ≡ none
  unfolding rpc_decode_json
  failing url buf (detail, value, rrs, parts, opc, e, f, g, se) =
      let (v, o, (zone, z, zt), d) = decode_url-HasTokens url parts f in
      ground (arith, e, f, g, se, z)

  -- Decoding a request reads through NULL exactly where the body is valid but for a member
  -- transaction that is not a string, the URL has its parts, and the operation is known; every
  -- other request is decoded or refused.
  pub rpc_decode_json_fails :
      (url buf : List ℕ)
      → (rpc_decode_json js rr_new_frm_str url buf ≡ none) ↔ BadTransaction url buf
  rpc_decode_json_fails url buf = (fails url buf, failing url buf)
