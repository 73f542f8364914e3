-- ===== src/Zoneoutput.antt =====
-- zoneoutput.c: a zone is written as text.
pub mod Writing
mod Tests
use volans.Prelude.{ℕ, Bool, true, false, Option, none, some, List, [], ◌∷◌, ◌++◌, map, concat}
use volans.Prelude.Int.{ℤ}
use volans.Text.{codes, decimal_ℤ}
use volans.Record.{elements, Itemset, Dictionary}
use volans.Record.Data.{recordallvalues, recordalltypes, walk_types}

abbrev pub joined : Option (List ℕ) → Option (List ℕ) → Option (List ℕ)
joined none rest = none
joined (some text) none = none
joined (some text) (some rest) = some (text ++ rest)

-- The lines at the head of the file, with the text of the origin that ldns makes of the apex.
abbrev pub header : List ℕ → Option ℤ → List ℕ
header origin none = codes "$ORIGIN " ++ (origin ++ 10 ∷ [])
header origin (some ttl) =
    codes "$ORIGIN " ++ (origin ++ (10 ∷ (codes "$TTL " ++ (decimal_ℤ ttl ++ 10 ∷ []))))

-- `rr2str` is `ldns_rr2str`, which `names_rr2str` calls.
module _ {Rr : Type 0} (rr2str : Rr → List ℕ) where
  -- The walk over the values of a type, over nothing if the iterator is NULL.
  abbrev pub write_values : Option (Option (List Rr)) → Option (List ℕ)
  write_values none = none
  write_values (some none) = some []
  write_values (some (some rrs)) = some (concat (map rr2str rrs))

  unfoldable pub write_types : Dictionary Rr → List ℕ → Option (List ℕ)
  unfolding recordallvalues
  write_types d [] = some []
  write_types d (t ∷ ts) = joined (write_values (recordallvalues d t)) (write_types d ts)

  unfoldable pub write_walked : Dictionary Rr → Option (List ℕ) → Option (List ℕ)
  unfolding write_types
  write_walked d none = none
  write_walked d (some ts) = write_types d ts

  unfoldable pub write_domains : List (Dictionary Rr) → Option (List ℕ)
  unfolding write_walked
  write_domains [] = some []
  write_domains (d ∷ ds) =
      joined (write_walked d (walk_types (recordalltypes d))) (write_domains ds)

  -- `writezone`: the text of the file, for the records of the first index in their order. `none` is
  -- a file that cannot be opened, since it is written all the same, or an access beyond an array.
  unfoldable pub writezone : Bool → List ℕ → Option ℤ → List (Dictionary Rr) → Option (List ℕ)
  unfolding write_domains
  writezone false origin defaultttl ds = none
  writezone true origin defaultttl ds = joined (some (header origin defaultttl)) (write_domains ds)
