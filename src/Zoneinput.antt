-- ===== src/Zoneinput.antt =====
-- `readzone` of zoneinput.c: a zone file is read into a view, in whole or as the lines that are
-- taken away and added in turn.
pub mod Lines
pub mod Reading
mod Tests
use volans.Prelude.{
  ℕ, Bool, true, false, Option, none, some, List, [], ◌∷◌, ◌++◌, map, if◌then◌else◌,
}
use volans.Ldns.{Ldns}
use volans.Record.{Dictionary}
use volans.Record.Data.{
  recordhasdata, recorddeldata, recordallvalues, recordalltypes, walk_types, add_rr,
}
use volans.Index.{Rbtree}
use volans.Table.{Nodes}
use volans.Views.Changes.{Change}
use volans.Views.Store.{
  View, Run, ◌>>=◌, ◌>>◌, return, record_at, assign_at, required, own_record, place_record,
  take_record,
}

-- `enum operation_enum`
pub data Operation : Type 0 where
  plain : Operation
  deltaminus : Operation
  deltaplus : Operation

-- What a call of ldns_rr_new_frm_fp_l finds in the file: a record, or one of the results other than
-- LDNS_STATUS_OK, $ORIGIN with the text of the origin.
pub data Line (Rr : Type 0) : Type 0 where
  resource : Rr → Line Rr
  syntax_include : Line Rr
  syntax_ttl : Line Rr
  syntax_origin : List ℕ → Line Rr
  syntax_empty : Line Rr
  syntax_error : Line Rr

-- The operation after an empty line.
abbrev pub switched : Operation → Operation
switched plain = plain
switched deltaminus = deltaplus
switched deltaplus = deltaminus

-- The variables of the loop: `operation`, `*apexptr`, and the table `removals` as the keys of its
-- entries.
pub record Reader : Type 0 where
  pub operation : Operation
  pub apex : Option (List ℕ)
  pub removals : List (List ℕ)

module _ {Rr Tree Log : Type 0} ⦃l : Ldns Rr⦄ (rb : Rbtree Tree) (ns : Nodes Change Log)
    (dname_hash : List ℕ → Option (List ℕ) → Option (List ℕ)) (owner : Rr → List ℕ)
    (ident : List ℕ → ℕ → Rr → List ℕ) where
  -- `names_rr2ident` makes one key of a name, a type and the data of a record: `ident` is that text.
  abbrev pub idents : List ℕ → ℕ → List Rr → List (List ℕ)
  idents name type [] = []
  idents name type (rr ∷ rrs) = ident name type rr ∷ idents name type rrs

  abbrev pub idents_of : Option (List ℕ) → ℕ → Option (Option (List Rr)) → Option (List (List ℕ))
  idents_of name type none = none
  idents_of name type (some none) = some []
  idents_of none type (some (some [])) = some []
  idents_of none type (some (some (rr ∷ rrs))) = none
  idents_of (some name) type (some (some rrs)) = some (idents name type rrs)

  abbrev pub both_keys : Option (List (List ℕ)) → Option (List (List ℕ)) → Option (List (List ℕ))
  both_keys none more = none
  both_keys (some ks) none = none
  both_keys (some ks) (some more) = some (ks ++ more)

  -- The loops of a plain reading over the records that the view holds, and their types and values.
  abbrev pub keys_of_types : Dictionary Rr → List ℕ → Option (List (List ℕ))
  keys_of_types d [] = some []
  keys_of_types d (t ∷ ts) =
      both_keys (idents_of d.name t (recordallvalues d t)) (keys_of_types d ts)

  abbrev pub keys_walked : Dictionary Rr → Option (List ℕ) → Option (List (List ℕ))
  keys_walked d none = none
  keys_walked d (some ts) = keys_of_types d ts

  unfoldable pub keys_of : List (Dictionary Rr) → Option (List (List ℕ))
  keys_of [] = some []
  keys_of (d ∷ ds) = both_keys (keys_walked d (walk_types (recordalltypes d))) (keys_of ds)

  -- A resource record is added to the record of its owner, which is owned first.
  abbrev pub add_owned : ℕ → Rr → Run (View Rr Tree Log) (Unit {0})
  add_owned r rr = do
    r' ← own_record rb ns dname_hash r
    d ← record_at rb ns dname_hash r'
    d' ← required rb ns dname_hash (add_rr d rr)
    assign_at rb ns dname_hash r' d'

  abbrev pub delete_owned : ℕ → Rr → Run (View Rr Tree Log) (Unit {0})
  delete_owned r rr = do
    r' ← own_record rb ns dname_hash r
    d ← record_at rb ns dname_hash r'
    assign_at rb ns dname_hash r' (recorddeldata d (l.type_of rr) rr)

  -- For a record that is there `composestring2` leaves the text of the key unset, as its second loop
  -- begins where the first one ended, and strlen reads it.
  abbrev pub read_plain : ℕ → Rr → Bool → List (List ℕ) → Run (View Rr Tree Log) (List (List ℕ))
  read_plain r rr true removals v = none
  read_plain r rr false removals v = (do add_owned r rr; return removals) v

  abbrev pub read_plus : ℕ → Rr → Bool → Run (View Rr Tree Log) (Unit {0})
  read_plus r rr true = return tt
  read_plus r rr false = add_owned r rr

  -- `names_recordhasdata` of NULL is false.
  abbrev pub read_minus : Option ℕ → Rr → Run (View Rr Tree Log) (Unit {0})
  read_minus none rr v = some (tt, v)
  read_minus (some r) rr v =
      if recordhasdata (v.heap r) (l.type_of rr) (some rr) false
      then delete_owned r rr v
      else some (tt, v)

  -- The cases of a record that was read.
  abbrev pub read_rr : Operation → Rr → List (List ℕ) → Run (View Rr Tree Log) (List (List ℕ))
  read_rr plain rr removals = do
    r ← place_record rb ns dname_hash (owner rr)
    d ← record_at rb ns dname_hash r
    read_plain r rr (recordhasdata d (l.type_of rr) (some rr) true) removals
  read_rr deltaplus rr removals = do
    r ← place_record rb ns dname_hash (owner rr)
    d ← record_at rb ns dname_hash r
    read_plus r rr (recordhasdata d (l.type_of rr) (some rr) true)
    return removals
  read_rr deltaminus rr removals = do
    found ← take_record rb ns dname_hash (owner rr)
    read_minus found rr
    return removals

  -- The body of the loop; `none` is also the call of abort for $INCLUDE. The time to live that
  -- $TTL sets is stored behind a pointer of `readzone` alone, and an error is only printed.
  abbrev pub with_removals : Reader → List (List ℕ) → Reader
  with_removals reader removals = record reader { removals = removals }

  unfoldable pub read_line : Line Rr → Reader → Run (View Rr Tree Log) Reader
  read_line (resource x) reader v =
      (do
        removals ← read_rr reader.operation x reader.removals
        return (with_removals reader removals))
        v
  read_line syntax_include reader v = none
  read_line syntax_ttl reader v = some (reader, v)
  read_line (syntax_origin text) reader v = some (record reader { apex = some text }, v)
  read_line syntax_empty reader v =
      some (record reader { operation = switched reader.operation }, v)
  read_line syntax_error reader v = some (reader, v)

  unfoldable pub read_lines : List (Line Rr) → Reader → Run (View Rr Tree Log) Reader
  unfolding read_line
  read_lines [] reader v = some (reader, v)
  read_lines (x ∷ xs) reader v = (do reader' ← read_line x reader; read_lines xs reader') v

  abbrev pub starting : Operation → List (Dictionary Rr) → Option (List (List ℕ))
  unfolding keys_of
  starting plain records = keys_of records
  starting _ records = some []

  -- Behind the loop a removal that is left is an access behind the text of its key, where the type
  -- is looked for.
  abbrev pub finish : Reader → Run (View Rr Tree Log) (Option (List ℕ))
  finish reader v = elim reader.removals [ [] ↦ some (reader.apex, v) | _ ∷ _ ↦ none ]

  -- `readzone` of a file that can be opened, with the records that the view holds in the order of
  -- its first index: what it leaves in `*apexptr`.
  unfoldable pub readzone :
      Operation
      → List (Line Rr)
      → Option (List ℕ)
      → List (Dictionary Rr)
      → Run (View Rr Tree Log) (Option (List ℕ))
  unfolding read_lines starting
  readzone operation lines apex records v = elim (starting operation records) [
    | none ↦ none
    | some removals ↦
        (do
          reader ←
              read_lines lines (record { operation = operation; apex = apex; removals = removals })
          finish reader)
          v
  ]
