-- ===== src/Zoneinput/Lines.antt =====
-- What the lines of a zone file that are no records make of `operation` and of the apex.
use volans.Prelude.{ℕ, ◌≢◌, Option, some, List, [], ◌∷◌}
use volans.Zoneinput.{
  Operation, Line, resource, syntax_include, syntax_ttl, syntax_origin, syntax_empty, syntax_error,
  switched,
}

module _ {Rr : Type 0} where
  abbrev pub operation_after : Operation → List (Line Rr) → Operation
  operation_after operation [] = operation
  operation_after operation (syntax_empty ∷ xs) = operation_after (switched operation) xs
  operation_after operation (resource rr ∷ xs) = operation_after operation xs
  operation_after operation (syntax_include ∷ xs) = operation_after operation xs
  operation_after operation (syntax_ttl ∷ xs) = operation_after operation xs
  operation_after operation (syntax_origin text ∷ xs) = operation_after operation xs
  operation_after operation (syntax_error ∷ xs) = operation_after operation xs

  abbrev pub apex_after : Option (List ℕ) → List (Line Rr) → Option (List ℕ)
  apex_after apex [] = apex
  apex_after apex (syntax_origin text ∷ xs) = apex_after (some text) xs
  apex_after apex (resource rr ∷ xs) = apex_after apex xs
  apex_after apex (syntax_include ∷ xs) = apex_after apex xs
  apex_after apex (syntax_ttl ∷ xs) = apex_after apex xs
  apex_after apex (syntax_empty ∷ xs) = apex_after apex xs
  apex_after apex (syntax_error ∷ xs) = apex_after apex xs

  -- A file without $INCLUDE.
  abbrev pub IsSupported : Line Rr → Type 0
  IsSupported x = x ≢ syntax_include
