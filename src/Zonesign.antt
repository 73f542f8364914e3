-- ===== src/Zonesign.antt =====
-- zonesign.c: `prepare` marks what a new serial starts and ends, and `sign` what is signed; with the
-- lists of records that views.c collects for them.
pub mod Serials
pub mod Prepare
pub mod Signing
pub mod Keydata
pub mod Digests
mod Tests
use volans.Prelude.{
  ℕ, Bool, true, false, not, Option, none, some, List, [], ◌∷◌, ◌==◌, if◌then◌else◌,
}
use volans.Prelude.Int.{ℤ, pos}
use volans.Ldns.{Ldns}
use volans.Record.{
  Dictionary, Itemset, elements, recordhasexpiry, recordhasvalidupto, recordhasvalidfrom,
  recordsetexpiry, recordsetvalidupto, recordsetvalidfrom,
}
use volans.Record.Data.{recordhasdata, recordalltypes, walk_types}
use volans.Index.{Rbtree, Index, indexlookup}
use volans.Table.{Nodes}
use volans.Views.Changes.{Change}
use volans.Views.Store.{
  View, Run, ◌>>=◌, ◌>>◌, return, record_at, assign_at, required, own_record, amend_record,
  remove_record,
}

-- `struct dual`
pub record Dual : Type 0 where
  pub src : Option ℕ
  pub dst : ℕ

abbrev pub is_same : Option ℕ → ℕ → Bool
is_same none b = false
is_same (some a) b = a == b

abbrev pub is_named : Option (List ℕ) → Bool
is_named none = false
is_named (some _) = true

module _ {Rr Tree Log : Type 0} ⦃l : Ldns Rr⦄ (rb : Rbtree Tree) (ns : Nodes Change Log)
    (dname_hash : List ℕ → Option (List ℕ) → Option (List ℕ)) (in_order : Tree → List ℕ) where
  -- `neighbors` and `noexpiry`, which are the same: the records of the second index, each with the
  -- record of the third index that equals it. `in_order` are the records of a tree in their order.
  abbrev pub pairs : (ℕ → Dictionary Rr) → Index Rr Tree → List ℕ → List Dual
  pairs heap ix [] = []
  pairs heap ix (r ∷ rs) = record { src = indexlookup rb heap ix r; dst = r } ∷ pairs heap ix rs

  abbrev pub pairs_in : (ℕ → Dictionary Rr) → List (Index Rr Tree) → Option (List Dual)
  pairs_in heap (second ∷ third ∷ _) = some (pairs heap third (in_order second.tree))
  pairs_in heap _ = none

  unfoldable pub neighbors : Run (View Rr Tree Log) (List Dual)
  neighbors v = elim (pairs_in v.heap v.others) [ none ↦ none | some changes ↦ some (changes, v) ]

  -- `expiring`: the records of the first index.
  unfoldable pub expiring : Run (View Rr Tree Log) (List ℕ)
  expiring v = some (in_order v.index.tree, v)

  -- A field of the record at an address is set; `none` is the failed assertion that it is NULL.
  abbrev pub set_field :
      (Dictionary Rr → ℤ → Option (Dictionary Rr)) → ℕ → ℤ → Run (View Rr Tree Log) (Unit {0})
  set_field f r value = do
    d ← record_at rb ns dname_hash r
    d' ← required rb ns dname_hash (f d value)
    assign_at rb ns dname_hash r d'

  abbrev pub distinct : Dual → Run (View Rr Tree Log) (Unit {0})
  distinct change v = if is_same change.src change.dst then none else some (tt, v)

  -- The body of the first loop of `prepare`, on the records with an expiry.
  abbrev pub end_record : Bool → ℕ → ℤ → Run (View Rr Tree Log) (Unit {0})
  end_record false r newserial = return tt
  end_record true r newserial = do
    set_field recordsetvalidupto r newserial
    r' ← own_record rb ns dname_hash r
    set_field recordsetvalidfrom r' newserial

  abbrev pub replace_pair : ℤ → Dual → Run (View Rr Tree Log) (Unit {0})
  replace_pair newserial change = do
    distinct change
    d ← record_at rb ns dname_hash change.dst
    end_record (recordhasexpiry d) change.dst newserial

  -- The body of the second loop: the old record ends with the serial, and the new one starts with
  -- it, or is removed if it has no data.
  abbrev pub end_old : Bool → ℕ → ℤ → Run (View Rr Tree Log) (Unit {0})
  end_old true r newserial = return tt
  end_old false r newserial = do
    amend_record rb ns dname_hash r
    set_field recordsetvalidupto r newserial

  abbrev pub end_src : Option ℕ → ℤ → Run (View Rr Tree Log) (Unit {0})
  end_src none newserial v = some (tt, v)
  end_src (some r) newserial v = end_old (recordhasvalidupto (v.heap r)) r newserial v

  abbrev pub start_data : Bool → ℕ → ℤ → Run (View Rr Tree Log) (Unit {0})
  start_data true r newserial = do
    amend_record rb ns dname_hash r
    set_field recordsetvalidfrom r newserial
  start_data false r newserial = remove_record rb ns dname_hash r

  abbrev pub start_new : Bool → ℕ → ℤ → Run (View Rr Tree Log) (Unit {0})
  start_new true r newserial v = some (tt, v)
  start_new false r newserial v = start_data (recordhasdata (v.heap r) 0 none false) r newserial v

  unfoldable pub renew_pair : ℤ → Dual → Run (View Rr Tree Log) (Unit {0})
  renew_pair newserial change = do
    distinct change
    end_src change.src newserial
    d ← record_at rb ns dname_hash change.dst
    start_new (recordhasvalidfrom d) change.dst newserial

  abbrev pub each :
      (Dual → Run (View Rr Tree Log) (Unit {0})) → List Dual → Run (View Rr Tree Log) (Unit {0})
  each body [] v = some (tt, v)
  each body (c ∷ cs) v = (do body c; each body cs) v

  -- `prepare`
  unfoldable pub prepare : ℤ → Run (View Rr Tree Log) (Unit {0})
  unfolding neighbors renew_pair
  prepare newserial = do
    expired ← neighbors
    each (replace_pair newserial) expired
    changes ← neighbors
    each (renew_pair newserial) changes

  -- `signrecord`: it makes the signatures of each type and frees them again, and leaves the record
  -- as it is. `none` is the walk over the types, at the first of them.
  abbrev pub walked : Option (List ℕ) → Run (View Rr Tree Log) (Unit {0})
  walked none v = none
  walked (some ts) v = some (tt, v)

  unfoldable pub signrecord : ℕ → Run (View Rr Tree Log) (Unit {0})
  signrecord r v =
      if is_named (v.heap r).name then walked (walk_types (recordalltypes (v.heap r))) v else none

  unfoldable pub sign_each : List ℕ → Run (View Rr Tree Log) (Unit {0})
  unfolding signrecord
  sign_each [] v = some (tt, v)
  sign_each (r ∷ rs) v =
      (do
        amend_record rb ns dname_hash r
        signrecord r
        set_field recordsetexpiry r (pos 1)
        sign_each rs)
        v

  -- `sign`, beside the keys.
  unfoldable pub sign : Run (View Rr Tree Log) (Unit {0})
  unfolding sign_each expiring
  sign = do records ← expiring; sign_each records
