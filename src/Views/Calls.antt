-- ===== src/Views/Calls.antt =====
-- `names_own` and `names_place` on a view with the index `nameupcoming`, as the input view has.
use volans.Prelude.{
  ℕ, ◌+◌, ◌≡◌, refl, sym, ap, subst, ◌∙◌, Bool, true, false, Option, none, some, List, ◌∷◌, ◌++◌,
  arith, ◌==◌, if◌then◌else◌,
}
use volans.Text.{decimal_ℤ}
use volans.Record.{Dictionary, recordcopy}
use volans.Record.Keys.{nameupcoming, getset}
use volans.Index.{Rbtree, Index, indexinsert}
use volans.Table.{Nodes, tableget, tablestore, tableput, write}
use volans.Table.Laws.{Maps, tableput-tableget}
use volans.Views.Changes.{Change, ChangeType, change_mod, changed}
use volans.Views.Store.{
  View, replaced_at, recordgetid, note_changed, own_record, noted_at, copied, owned,
}
use volans.Views.Usable.{
  Walks, IsUsable, IsDecided, recordcopy-IsUsable, indexinsert-Like, indexremove_nothing,
}

module _ {Rr Tree Log : Type 0} where
  -- Every record can be read, and the index is that of the input view.
  pub record IsInput (v : View Rr Tree Log) : Type 0 where
    pub usable : (a : ℕ) → IsUsable (v.heap a)
    pub keyed : v.index.keyname ≡ nameupcoming
    pub decided : IsDecided v.index.acceptfunc

module _ {Rr : Type 0} where
  -- The text of a record's name and revision.
  abbrev pub id_text : List ℕ → Dictionary Rr → List ℕ
  id_text name d = name ++ 32 ∷ decimal_ℤ d.revision

  pub recordgetid_lem :
      (d : Dictionary Rr) (text : List ℕ)
      → d.name ≡ some text
      → recordgetid d ≡ some (id_text text d)
  unfolding recordgetid getset
  recordgetid_lem d text e = rw e refl

  pub replaced-IsUsable :
      (heap : ℕ → Dictionary Rr) (a : ℕ) (d : Dictionary Rr)
      → ((j : ℕ) → IsUsable (heap j))
      → IsUsable d
      → (j : ℕ) → IsUsable (replaced_at heap a d j)
  replaced-IsUsable heap a d u w j = by_test (j == a)
    where
      by_test : (b : Bool) → IsUsable (if b then d else heap j)
      by_test true = w
      by_test false = u j

module _ {Rr Tree Log : Type 0} (rb : Rbtree Tree) (walks : Walks rb) (ns : Nodes Change Log)
    (maps : Maps ns) (dname_hash : List ℕ → Option (List ℕ) → Option (List ℕ)) where
  abbrev pub entry_after : View Rr Tree Log → List ℕ → ℕ → ChangeType → Bool → Change
  entry_after v id r type target = changed (tableget ns v.changelog id) r type target

  abbrev pub with_entry : View Rr Tree Log → List ℕ → Change → View Rr Tree Log
  with_entry v id change = record v { changelog = tablestore ns v.changelog id change }

  -- What `changed` leaves of a view, for a record whose id is `id`.
  pub note_changed_lem :
      (v : View Rr Tree Log) (r : ℕ) (type : ChangeType) (target : Bool) (id : List ℕ)
      → recordgetid (v.heap r) ≡ some id
      → note_changed rb ns dname_hash r type target v
        ≡ some (
          (tableget ns v.changelog id, entry_after v id r type target),
          with_entry v id (entry_after v id r type target),
        )
  unfolding note_changed noted_at tablestore
  note_changed_lem v r type target id e =
      ap (λ o. noted_at rb ns dname_hash r type target o v) e
      ∙ ap
          (λ entry. some (
            (entry, changed entry r type target),
            record v {
              changelog = write ns (tableput ns v.changelog id).1 id (changed entry r type target);
            },
          ))
          (tableput-tableget ns maps v.changelog id)

  noted_entry :
      (v : View Rr Tree Log) (r : ℕ) (type : ChangeType) (target : Bool) (id : List ℕ)
      (entry : Option Change)
      → recordgetid (v.heap r) ≡ some id
      → tableget ns v.changelog id ≡ entry
      → note_changed rb ns dname_hash r type target v
        ≡ some ((entry, changed entry r type target), with_entry v id (changed entry r type target))
  noted_entry v r type target id entry e f =
      note_changed_lem v r type target id e
      ∙ ap (λ o. some ((o, changed o r type target), with_entry v id (changed o r type target))) f

  module _ (v : View Rr Tree Log) (input : IsInput v) (r : ℕ) (text : List ℕ)
      (named : (v.heap r).name ≡ some text) where
    abbrev pub id_at : List ℕ
    id_at = id_text text (v.heap r)

    -- A record whose id has an entry is owned: the entry then holds the record itself.
    pub own_record_again :
        (ch : Change)
        → tableget ns v.changelog id_at ≡ some ch
        → own_record rb ns dname_hash r v
          ≡ some (r, with_entry v id_at (record ch { newrecord = some r }))
    unfolding own_record changed
    own_record_again ch e =
        ap
          (λ o. elim o [
            | none ↦ none
            | some (a, v') ↦ owned rb ns dname_hash r a.1 a.1.newrecord v'
          ])
          (noted_entry v r change_mod true id_at (some ch) (recordgetid_lem (v.heap r) text named)
            e)

    -- What `names_own` leaves the first time: a copy at a new address, which the entry of the
    -- record's id holds, with the record as the old one.
    abbrev pub own_change : Change
    own_change = record { newrecord = some v.fresh; oldrecord = some r }

    copied_lem :
        (copy : Dictionary Rr) (rc : ℕ) (ix : Index Rr Tree)
        → recordcopy (v.heap r) ≡ some copy
        → indexinsert rb (replaced_at v.heap v.fresh copy) v.index v.fresh ≡ some (rc, ix)
        → copied rb ns dname_hash r
            (record { newrecord = none; oldrecord = some r })
            (with_entry v id_at (record { newrecord = none; oldrecord = some r }))
          ≡ some (
            v.fresh,
            record v {
              heap = replaced_at v.heap v.fresh copy;
              fresh = v.fresh + 1;
              index = ix;
              changelog =
                  write ns
                    (tablestore ns v.changelog id_at (record own_change { newrecord = none }))
                    id_at
                    own_change;
            },
          )
    copied_lem copy rc ix ce ie = ground (
      arith,
      indexremove_nothing rb v.heap input.usable v.index input.keyed r v.fresh,
      ce,
      recordgetid_lem (v.heap r) text named,
      ie,
    )

    pub own_record_first :
        tableget ns v.changelog id_at ≡ none
        → (copy : Dictionary Rr) × (ix : Index Rr Tree) × (recordcopy (v.heap r) ≡ some copy)
          × (own_record rb ns dname_hash r v
              ≡ some (
                v.fresh,
                record v {
                  heap = replaced_at v.heap v.fresh copy;
                  fresh = v.fresh + 1;
                  index = ix;
                  changelog =
                      write ns
                        (tablestore ns v.changelog id_at (record own_change { newrecord = none }))
                        id_at
                        own_change;
                },
              ))
          × IsInput (record v { heap = replaced_at v.heap v.fresh copy; index = ix })
    unfolding own_record changed
    own_record_first e =
        let (copy, ce, cu, cn, cr) = recordcopy-IsUsable (v.heap r) (input.usable r) in
        let heap' = replaced_at v.heap v.fresh copy in
        let usable' = replaced-IsUsable v.heap v.fresh copy input.usable cu in
        let (rc, ix, ie, iu) =
          indexinsert-Like rb walks heap' usable' v.index input.decided v.fresh in
        (
          copy,
          ix,
          ce,
          ap
                (λ o. elim o [
                  | none ↦ none
                  | some (a, v') ↦ owned rb ns dname_hash r a.1 a.1.newrecord v'
                ])
                (noted_entry v r change_mod true id_at none (recordgetid_lem (v.heap r) text named)
                  e)
              ∙ copied_lem copy rc ix ce ie,
          record {
            usable = usable';
            keyed = iu.0 ∙ input.keyed;
            decided = subst IsDecided (sym iu.1) input.decided;
          },
        )
