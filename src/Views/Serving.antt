-- ===== src/Views/Serving.antt =====
-- `names_own`, `names_place` and `names_take` on the input view: they go through, whatever the view
-- has changed before.
use volans.Prelude.{
  ℕ, ◌+◌, ◌≡◌, ◌≢◌, refl, sym, subst, ◌∙◌, false, Option, none, some, List, [], ◌∷◌, arith,
  Option-cases, inl, inr,
}
use volans.Ldns.{Ldns}
use volans.Record.Data.{
  add_rr, add_to_sets, recorddeldata, shrunk, find_set, without_item, delete_in,
}
use volans.Record.{Dictionary, Array, Itemset, at, elements, recordcreate, null, minus}
use volans.Index.{Rbtree, indexlookupkey, found}
use volans.Table.{Nodes, tableget}
use volans.Table.Laws.{Maps}
use volans.Views.Changes.{Change, change_add}
use volans.Views.Store.{View, own_record, place_record, take_record, replaced_at, placed, annotated}
use volans.Views.Usable.{Walks, IsUsable, IsDecided, indexinsert-Like}
use volans.Views.Calls.{
  IsInput, own_record_first, own_record_again, id_text, replaced-IsUsable, note_changed_lem,
  with_entry, entry_after,
}
use volans.Views.Detection.{IsServing, named_id}

module _ {Rr Tree Log : Type 0} where
  pub IsServing-IsInput : (v : View Rr Tree Log) → IsServing v → IsInput v
  IsServing-IsInput v s = record {
    usable = s.served.usable;
    keyed = s.keyed;
    decided = s.served.first;
  }

module _ {Rr Tree Log : Type 0} where
  -- A record that can be read may take the place of any other.
  pub assign-IsServing :
      (v : View Rr Tree Log) (r : ℕ) (d : Dictionary Rr)
      → IsUsable d
      → IsServing v
      → IsServing (record v { heap = replaced_at v.heap r d })
  assign-IsServing v r d u s = record {
    keyed = s.keyed;
    served = record {
      usable = replaced-IsUsable v.heap r d s.served.usable u;
      first = s.served.first;
      rest = s.served.rest;
    };
  }

module _ {Rr : Type 0} ⦃l : Ldns Rr⦄ where
  pub add_rr-IsUsable :
      (d : Dictionary Rr) (rr : Rr)
      → IsUsable d
      → (d' : Dictionary Rr) × (add_rr d rr ≡ some d') × IsUsable d'
  unfolding add_rr
  add_rr-IsUsable d rr u = by_sets d.itemsets refl
    where
      by_sets :
          (a : Array (Itemset Rr))
          → d.itemsets ≡ a
          → (d' : Dictionary Rr) × (add_rr d rr ≡ some d') × IsUsable d'
      by_sets minus e = absurd (u.counted e)
      by_sets null e = (
        record d { itemsets = at (add_to_sets rr []) },
        rw e refl,
        record { named = u.named; hashed = u.hashed; counted = λ z. cc z },
      )
      by_sets (at sets) e = (
        record d { itemsets = at (add_to_sets rr sets) },
        rw e refl,
        record { named = u.named; hashed = u.hashed; counted = λ z. cc z },
      )

shrunk-ne-minus : {A : Type 0} (xs : List A) → shrunk xs ≢ minus
shrunk-ne-minus [] h = cc
shrunk-ne-minus (x ∷ xs) h = cc

module _ {Rr : Type 0} ⦃l : Ldns Rr⦄ where
  pub recorddeldata-IsUsable :
      (d : Dictionary Rr) (t : ℕ) (rr : Rr) → IsUsable d → IsUsable (recorddeldata d t rr)
  unfolding recorddeldata
  recorddeldata-IsUsable d t rr u = by_set (find_set t (elements d.itemsets))
    where
      by_item :
          (s : Itemset Rr) (o : Option (List Rr))
          → IsUsable (elim o as (λ _. Dictionary Rr) [
            | none ↦ d
            | some rest ↦ record d { itemsets = shrunk (delete_in t s rest (elements d.itemsets)) }
          ])
      by_item s none = u
      by_item s (some rest) = record {
        named = u.named;
        hashed = u.hashed;
        counted = shrunk-ne-minus _;
      }

      by_set :
          (o : Option (Itemset Rr))
          → IsUsable (elim o as (λ _. Dictionary Rr) [
            | none ↦ d
            | some s ↦ elim (without_item rr (elements s.items)) [
              | none ↦ d
              | some rest ↦ record d {
                itemsets = shrunk (delete_in t s rest (elements d.itemsets));
              }
            ]
          ])
      by_set none = u
      by_set (some s) = by_item s (without_item rr (elements s.items))

module _ {Rr Tree Log : Type 0} (rb : Rbtree Tree) (walks : Walks rb) (ns : Nodes Change Log)
    (maps : Maps ns) (dname_hash : List ℕ → Option (List ℕ) → Option (List ℕ)) where
  -- A call goes through with a result, and leaves a view as it should be, of the same zone.
  abbrev pub Goes : {A : Type 0} → View Rr Tree Log → Option (A × View Rr Tree Log) → Type 0
  Goes {A} v o =
      (a : A) × (v' : View Rr Tree Log) × (o ≡ some (a, v')) × IsServing v' × (v'.apex ≡ v.apex)

  own_by_entry :
      (v : View Rr Tree Log) (r : ℕ) (text : List ℕ) (entry : Option Change)
      → IsServing v
      → (v.heap r).name ≡ some text
      → tableget ns v.changelog (id_text text (v.heap r)) ≡ entry
      → Goes v (own_record rb ns dname_hash r v)
  own_by_entry v r text none s named e =
      let (copy, ix, ce, oe, input') =
        own_record_first rb walks ns maps dname_hash v (IsServing-IsInput v s) r text named e in
      (
        v.fresh,
        _,
        oe,
        record {
          keyed = input'.keyed;
          served = record { usable = input'.usable; first = input'.decided; rest = s.served.rest };
        },
        refl,
      )
  own_by_entry v r text (some ch) s named e = (
    r,
    _,
    own_record_again rb walks ns maps dname_hash v (IsServing-IsInput v s) r text named ch e,
    record {
      keyed = s.keyed;
      served = record { usable = s.served.usable; first = s.served.first; rest = s.served.rest };
    },
    refl,
  )

  pub own_record-IsServing :
      (v : View Rr Tree Log) (r : ℕ) → IsServing v → Goes v (own_record rb ns dname_hash r v)
  own_record-IsServing v r s = elim (Option-cases (v.heap r).name) [
    | inl e ↦ absurd ((s.served.usable r).named e)
    | inr (text, e) ↦
        own_by_entry v r text (tableget ns v.changelog (id_text text (v.heap r))) s e refl
  ]

  -- The lookup of a name in the index of the input view.
  pub take_record-IsServing :
      (v : View Rr Tree Log) (name : List ℕ)
      → IsServing v
      → (found : Option ℕ) × (take_record rb ns dname_hash name v ≡ some (found, v))
  unfolding take_record indexlookupkey recordcreate
  take_record-IsServing v name s =
      elim (Option-cases (indexlookupkey rb v.heap v.fresh v.index name)) [
        | inl e ↦ absurd (ground (arith, e, s.keyed))
        | inr (found, e) ↦ (found, ground (arith, e))
      ]

  placed-IsServing :
      (v : View Rr Tree Log) (name : List ℕ) (found : Option ℕ)
      → ((n : List ℕ) → dname_hash n v.apex ≢ none)
      → IsServing v
      → Goes v (placed rb ns dname_hash name found v)
  unfolding recordcreate
  placed-IsServing v name (some r) hashes s = (r, v, refl, s, refl)
  placed-IsServing v name none hashes s =
      let d = annotated rb ns dname_hash v.apex (recordcreate (some name)) name in
      let heap' = replaced_at v.heap v.fresh d in
      let usable' =
        replaced-IsUsable v.heap v.fresh d s.served.usable
          (record { named = λ e. cc e; hashed = hashes name; counted = λ e. cc e }) in
      let (rc, ix, ie, like) =
        indexinsert-Like rb walks heap' usable' v.index s.served.first v.fresh in
      let v1 = record v { heap = heap'; fresh = v.fresh + 1; index = ix } in
      let (id, ide) = named_id (heap' v.fresh) (usable' v.fresh) in
      let ne = note_changed_lem rb walks ns maps dname_hash v1 v.fresh change_add false id ide in
      (
        v.fresh,
        with_entry rb walks ns maps dname_hash v1 id
            (entry_after rb walks ns maps dname_hash v1 id v.fresh change_add false),
        ground (arith, ie, ne),
        record {
          keyed = like.0 ∙ s.keyed;
          served = record {
            usable = usable';
            first = subst IsDecided (sym like.1) s.served.first;
            rest = s.served.rest;
          };
        },
        refl,
      )

  pub place_record-IsServing :
      (v : View Rr Tree Log) (name : List ℕ)
      → ((n : List ℕ) → dname_hash n v.apex ≢ none)
      → IsServing v
      → Goes v (place_record rb ns dname_hash name v)
  unfolding place_record take_record recordcreate
  place_record-IsServing v name hashes s =
      let (found, e) = take_record-IsServing v name s in
      let (r, v', p, s', a) = placed-IsServing v name found hashes s in
      (r, v', ground (arith, e, p), s', a)
