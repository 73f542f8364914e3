-- ===== src/Httpd/Changes.antt =====
-- The changes that `dispatch` of httpd.c makes to the input view.
use volans.Prelude.{
  ℕ, ◌≡◌, ◌≢◌, refl, sym, ap, subst, ◌∙◌, Option, none, some, List, [], ◌∷◌, arith, All,
}
use volans.Text.{Sign}
use volans.Ldns.{Ldns}
use volans.Record.{Dictionary, Itemset, at, elements, recordcreate}
use volans.Record.Data.{add_rr, find_set, recorddelall}
use volans.Index.{Rbtree, Index}
use volans.Index.Range.{last_byte, dot, indexrange-no_dot}
use volans.Table.{Nodes}
use volans.Table.Laws.{Maps}
use volans.Views.Changes.{Change}
use volans.Views.Store.{View, >>=-some, replaced_at, take_record, own_record, place_record}
use volans.Views.Usable.{Walks, IsUsable}
use volans.Views.Detection.{IsServing, resetchangelog-IsServing}
use volans.Views.Serving.{
  Goes, add_rr-IsUsable, assign-IsServing, own_record-IsServing, place_record-IsServing,
}
use volans.Views.Apply.{viewreset, update_records, resetchangelog}
use volans.Rpc.{Status, rpc_ok, rpc_err}
use volans.Httpd.{
  insertrecords, insert_rr, deleterecordsets, deletedelegation, modify, range_of, delete_owned,
}

module _ {Rr Tree Log : Type 0} ⦃l : Ldns Rr⦄ (rb : Rbtree Tree) (walks : Walks rb)
    (ns : Nodes Change Log) (maps : Maps ns)
    (dname_hash : List ℕ → Option (List ℕ) → Option (List ℕ)) (owner : Rr → List ℕ)
    (less_equal : (ℕ → ℕ → Sign) → Tree → ℕ → List ℕ) where
  modify-IsServing :
      (f : Dictionary Rr → Option (Dictionary Rr)) (r : ℕ) (v : View Rr Tree Log)
      → ((d : Dictionary Rr) → IsUsable d → (d' : Dictionary Rr) × (f d ≡ some d') × IsUsable d')
      → IsServing v
      → Goes rb walks ns maps dname_hash v (modify rb ns dname_hash owner less_equal f r v)
  modify-IsServing f r v total s =
      let (d', e, u) = total (v.heap r) (s.served.usable r) in
      (
        tt,
        record v { heap = replaced_at v.heap r d' },
        ground (arith, e),
        assign-IsServing v r d' u s,
        refl,
      )

  insert_rr-IsServing :
      (rr : Rr) (v : View Rr Tree Log)
      → ((n : List ℕ) → dname_hash n v.apex ≢ none)
      → IsServing v
      → Goes rb walks ns maps dname_hash v (insert_rr rb ns dname_hash owner less_equal rr v)
  insert_rr-IsServing rr v hashes s =
      let (p, v1, e1, s1, a1) =
        place_record-IsServing rb walks ns maps dname_hash v (owner rr) hashes s in
      let (r, v2, e2, s2, a2) = own_record-IsServing rb walks ns maps dname_hash v1 p s1 in
      let (t, v3, e3, s3, a3) =
        modify-IsServing (λ d. add_rr d rr) r v2 (λ d u. add_rr-IsUsable d rr u) s2 in
      (
        tt,
        v3,
        >>=-some (place_record rb ns dname_hash (owner rr)) _ v e1
            ∙ >>=-some (own_record rb ns dname_hash p) _ v1 e2
            ∙ e3,
        s3,
        a3 ∙ a2 ∙ a1,
      )

  -- `insertrecords` goes through and leaves the status RPC_OK.
  pub insertrecords_ok :
      (rrs : List Rr) (v : View Rr Tree Log)
      → ((n : List ℕ) → dname_hash n v.apex ≢ none)
      → IsServing v
      → (v' : View Rr Tree Log) × (insertrecords rb ns dname_hash owner less_equal rrs v
          ≡ some (rpc_ok, v'))
        × IsServing v'
  unfolding insertrecords
  insertrecords_ok [] v hashes s = (v, refl, s)
  insertrecords_ok (rr ∷ rrs) v hashes s =
      let (t, v1, e1, s1, a1) = insert_rr-IsServing rr v hashes s in
      let (v2, e2, s2) =
        insertrecords_ok rrs v1 (λ n. subst (λ a. dname_hash n a ≢ none) (sym a1) (hashes n)) s1 in
      (v2, ground (arith, e1, e2), s2)

  viewreset_nothing :
      (v v0 : View Rr Tree Log)
      → resetchangelog rb ns dname_hash v ≡ some (tt, v0)
      → v0.pending ≡ []
      → viewreset rb ns dname_hash v ≡ some (tt, record v0 { pending = [] })
  unfolding viewreset update_records
  viewreset_nothing v v0 e p = ground (arith, e, p)

  after_reset :
      (rr : Rr) (rrs : List Rr) (status : Status) (v v1 : View Rr Tree Log)
      → take_record rb ns dname_hash (owner rr) v ≡ some (none, v)
      → viewreset rb ns dname_hash v ≡ some (tt, v1)
      → deleterecordsets rb ns dname_hash owner less_equal (rr ∷ rrs) status v ≡ some (rpc_err, v1)
  unfolding deleterecordsets
  after_reset rr rrs status v v1 t e = ground (arith, t, e)

  -- Where the zone does not hold the owner of the first record of a request, deleterecordsets
  -- resets the view and leaves the status RPC_ERR, and insertrecords after it goes through and
  -- leaves RPC_OK. The view has no change log to apply and no NULL entry in its change table, it
  -- has the index of upcoming records first and indices that decide, all records have a name and a
  -- hash of it, the count of no array of sets is -1, and names can be hashed.
  pub insertrecords-deleterecordsets :
      (rr : Rr) (rrs : List Rr) (status : Status) (v : View Rr Tree Log)
      → ((n : List ℕ) → dname_hash n v.apex ≢ none)
      → IsServing v
      → All (λ n. n.1 ≢ none) (ns.nodes v.changelog)
      → v.pending ≡ []
      → take_record rb ns dname_hash (owner rr) v ≡ some (none, v)
      → (v1 v2 : View Rr Tree Log) × (deleterecordsets rb ns dname_hash owner less_equal
            (rr ∷ rrs)
            status
            v
          ≡ some (rpc_err, v1))
        × (insertrecords rb ns dname_hash owner less_equal (rr ∷ rrs) v1 ≡ some (rpc_ok, v2))
        × IsServing v2
  insertrecords-deleterecordsets rr rrs status v hashes s n p missing =
      let (v0, e0, s0, h0, a0, p0) = resetchangelog-IsServing rb walks ns maps dname_hash v n s in
      let v1 = record v0 { pending = [] } in
      let s1 : IsServing v1 = record {
        keyed = s0.keyed;
        served = record {
          usable = s0.served.usable;
          first = s0.served.first;
          rest = s0.served.rest;
        };
      } in
      let (v2, e2, s2) =
        insertrecords_ok (rr ∷ rrs) v1 (λ n. subst (λ a. dname_hash n a ≢ none) (sym a0) (hashes n))
          s1 in
      (v1, v2, after_reset rr rrs status v v1 missing (viewreset_nothing v v0 e0 (p0 ∙ p)), e2, s2)

  -- Where the record of the first owner has resource records of the type, `deleterecordsets` frees
  -- them twice.
  pub deleterecordsets_present :
      (rr : Rr) (rrs : List Rr) (status : Status) (v : View Rr Tree Log) (r : ℕ) (set : Itemset Rr)
      (items : List Rr)
      → take_record rb ns dname_hash (owner rr) v ≡ some (some r, v)
      → l.type_of rr ≢ 0
      → find_set (l.type_of rr) (elements (v.heap r).itemsets) ≡ some set
      → set.items ≡ at items
      → deleterecordsets rb ns dname_hash owner less_equal (rr ∷ rrs) status v ≡ none
  unfolding deleterecordsets recorddelall
  deleterecordsets_present rr rrs status v r set items t z f i = ground (arith, t, z, f, i)

  -- With a delegation point that does not end in a dot, deletedelegation changes nothing, where
  -- the view has a second index and all records have names.
  pub deletedelegation_no_dot :
      (name : List ℕ) (b : ℕ) (ix : Index Rr Tree) (rest : List (Index Rr Tree))
      (v : View Rr Tree Log)
      → last_byte name ≡ some b
      → b ≢ dot
      → v.others ≡ ix ∷ rest
      → ((a : ℕ) → (v.heap a).name ≢ none)
      → deletedelegation rb ns dname_hash owner less_equal name v ≡ some (tt, v)
  unfolding deletedelegation recordcreate
  deletedelegation_no_dot name b ix rest v e d o named =
      >>=-some (range_of rb ns dname_hash owner less_equal v.others name)
        (delete_owned rb ns dname_hash owner less_equal) v
        (ap (λ os. range_of rb ns dname_hash owner less_equal os name v) o
          ∙ ap (λ x. elim x [ none ↦ none | some rs ↦ some (rs, v) ])
              (indexrange-no_dot v.heap name _ b e d named))
