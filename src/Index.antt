-- ===== src/Index.antt =====
-- index.c: an index of a view holds records in the order of one of their fields, and decides by its
-- acceptance function which records it holds.
pub mod Searches
pub mod Insertion
pub mod Rules
pub mod Range
mod Tests
use volans.Prelude.{
  ℕ, zero, suc, ◌≡◌, Bool, true, false, ◌||◌, ◌&&◌, Option, none, some, List, [], ◌∷◌, ◌==◌,
  if◌then◌else◌,
}
use volans.Prelude.Int.{pos}
use volans.Text.{Sign, less, equal, greater, is_equal, scan_int}
use volans.Record.{Dictionary, recordcreate, recordhasmarker}
use volans.Record.Keys.{
  Keyname, name, revision, namerevision, validfrom, validupto, expiry, denialname, nameupcoming,
  Verdict, getset, getset_rc, recordindexfunction, ◌>>=◌,
}
use volans.Record.Ordering.{order}

-- What index.c uses of the red-black tree of ldns, which is sorted by a comparison. A record is
-- known by its address, a number, and every node has a record as both its key and its data.
-- `search` is ldns_rbtree_search, `insert` ldns_rbtree_insert with `none` for a record that equals
-- one that is there, `delete` ldns_rbtree_delete, and `assign` writes a record into the node that
-- `search` finds for it.
pub record Rbtree (Tree : Type 0) : Type 0 where
  pub create : Tree
  pub search : (ℕ → ℕ → Sign) → Tree → ℕ → Option ℕ
  pub insert : (ℕ → ℕ → Sign) → Tree → ℕ → Option Tree
  pub delete : (ℕ → ℕ → Sign) → Tree → ℕ → Tree
  pub assign : (ℕ → ℕ → Sign) → Tree → ℕ → Tree

pub record Index (Rr Tree : Type 0) : Type 0 where
  pub keyname : Keyname
  pub tree : Tree
  pub acceptfunc : Dictionary Rr → Option (Dictionary Rr) → Option Verdict

module _ {Rr Tree : Type 0} (rb : Rbtree Tree) where
  -- `names_indexcreate`; `none` is the call of abort for a name that is no index.
  unfoldable pub indexcreate : Keyname → Option (Index Rr Tree)
  indexcreate k = do
    accept ← recordindexfunction k
    some (record { keyname = k; tree = rb.create; acceptfunc = accept })

  -- `heap` holds the records at their addresses, and the functions of the index read it.
  module _ (heap : ℕ → Dictionary Rr) where
    -- The order of the tree. Where the compare functions go through a NULL name, it takes the name as
    -- an empty text: an index of records without names is outside the model.
    abbrev pub order_at : Index Rr Tree → ℕ → ℕ → Sign
    order_at ix a b = order ix.keyname (heap a) (heap b)

    abbrev pub accept_at : Index Rr Tree → ℕ → ℕ → Option Verdict
    accept_at ix d node = ix.acceptfunc (heap d) (some (heap node))

    abbrev pub found : Index Rr Tree → ℕ → Option ℕ
    found ix d = rb.search (order_at ix) ix.tree d

    abbrev pub with_tree : Index Rr Tree → Tree → Index Rr Tree
    with_tree ix t = record ix { tree = t }

    abbrev pub without : Index Rr Tree → ℕ → Index Rr Tree
    without ix node = with_tree ix (rb.delete (order_at ix) ix.tree node)

    -- The record of the index that the new one equals gives way, or goes, or stays.
    abbrev pub replaced : Index Rr Tree → ℕ → ℕ → ℕ → Option (ℕ × Index Rr Tree)
    replaced ix d node zero = some (0, ix)
    replaced ix d node (suc zero) = some (
      1,
      if recordhasmarker (heap d)
          then without ix node
          else with_tree ix (rb.assign (order_at ix) ix.tree d),
    )
    replaced ix d node (suc (suc zero)) = some (0, without ix node)
    replaced ix d node _ = none

    abbrev pub conflicted : Index Rr Tree → ℕ → Option ℕ → Option (ℕ × Index Rr Tree)
    conflicted ix d none = none
    conflicted ix d (some node) = do v ← accept_at ix d node; replaced ix d node v.code

    abbrev pub taken : Index Rr Tree → ℕ → Option Tree → Option (ℕ × Index Rr Tree)
    taken ix d (some t) = some (1, with_tree ix t)
    taken ix d none = conflicted ix d (found ix d)

    abbrev pub is_equal_cmp : Option Sign → Bool
    is_equal_cmp none = false
    is_equal_cmp (some c) = is_equal c

    abbrev pub refused_by : Index Rr Tree → ℕ → ℕ → Option (ℕ × Index Rr Tree)
    refused_by ix d node = if recordhasmarker (heap d) then some (0, without ix node) else (do
      v ← accept_at ix d node
      some (0, if v.code == 0 || (is_equal_cmp v.cmp && node == d) then without ix node else ix))

    abbrev pub refused : Index Rr Tree → ℕ → Option ℕ → Option (ℕ × Index Rr Tree)
    refused ix d none = some (0, ix)
    refused ix d (some node) = refused_by ix d node

    abbrev pub decided : Index Rr Tree → ℕ → ℕ → Option (ℕ × Index Rr Tree)
    decided ix d zero = refused ix d (found ix d)
    decided ix d (suc _) = taken ix d (rb.insert (order_at ix) ix.tree d)

    -- `names_indexinsert`; `none` is a failed assertion, a call of abort or strcmp of NULL.
    unfoldable pub indexinsert : Index Rr Tree → ℕ → Option (ℕ × Index Rr Tree)
    indexinsert ix d = do v ← ix.acceptfunc (heap d) none; decided ix d v.code

    -- `names_indexaccept` and `names_indexlookup`
    unfoldable pub indexaccept : Index Rr Tree → ℕ → Option ℕ
    indexaccept ix d = do v ← ix.acceptfunc (heap d) none; some v.code

    unfoldable pub indexlookup : Index Rr Tree → ℕ → Option ℕ
    indexlookup ix find = found ix find

  -- `getset` writing a field of a new record. `none` is the call of abort, and a number that is not
  -- read, which leaves new memory unset. The fields `revision` and `namerevision` are read from the
  -- name of the field: the first is not found in it, and the second reads it as a record's name.
  abbrev pub setkey : Keyname → List ℕ → Dictionary Rr → Option (Dictionary Rr)
  setkey name value d = some (record d { name = some value })
  setkey nameupcoming value d = some (record d { name = some value })
  setkey revision value d = some d
  setkey namerevision value d = some (record d {
    name = some (110 ∷ 97 ∷ 109 ∷ 101 ∷ 114 ∷ 101 ∷ 118 ∷ 105 ∷ 115 ∷ 105 ∷ 111 ∷ 110 ∷ []);
  })
  setkey validfrom value d = do z ← scan_int value; some (record d { validfrom = some z })
  setkey validupto value d = do z ← scan_int value; some (record d { validupto = some z })
  setkey expiry value d = do z ← scan_int value; some (record d { expiry = some z })
  setkey denialname value d = some (record d { spanhash = some value })
  setkey _ value d = none

  abbrev allocated : (ℕ → Dictionary Rr) → ℕ → Dictionary Rr → ℕ → Dictionary Rr
  allocated heap find d a = if a == find then d else heap a

  module _ (heap : ℕ → Dictionary Rr) (find : ℕ) where
    -- `names_indexlookupkey` and `names_indexremovekey`, where `find` is a free address.
    unfoldable pub indexlookupkey : Index Rr Tree → List ℕ → Option (Option ℕ)
    indexlookupkey ix value = do
      d ← setkey ix.keyname value (recordcreate none)
      some (indexlookup (allocated heap find d) ix find)

    unfoldable pub indexremovekey : Index Rr Tree → List ℕ → Option (ℕ × Index Rr Tree)
    indexremovekey ix value = do
      d ← setkey ix.keyname value (recordcreate none)
      let heap' = allocated heap find d
      some (
        elim (found heap' ix find) [ none ↦ 0 | some _ ↦ 1 ],
        elim (found heap' ix find) [ none ↦ ix | some _ ↦ without heap' ix find ],
      )

    -- `names_indexremove`; `none` is also strdup of NULL.
    unfoldable pub indexremove : Index Rr Tree → ℕ → Option (ℕ × Index Rr Tree)
    indexremove ix d = do
      rc ← getset_rc (heap d) ix.keyname
      value ← getset (heap d) ix.keyname
      if rc then (do text ← value; indexremovekey ix text) else some (0, ix)
