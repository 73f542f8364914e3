-- ===== src/Views/Conflicts.antt =====
-- How `updateview` finds that another view has changed what the view has changed too.
mod Tests
use volans.Prelude.{
  ℕ, zero, suc, ◌+◌, ◌<◌, ◌^◌, ◌≡◌, ◌≢◌, refl, sym, ap, subst, ◌∙◌, Bool, true, false, ◌||◌, Option,
  none, some, List, [], ◌∷◌, ◌++◌, arith, ◌==◌, if◌then◌else◌, Bool-cases, inl, inr, length, All,
}
use volans.Prelude.Int.{pos, ◌+ℤ◌}
use volans.Text.{Sign, equal, is_equal, strcmp, decimal, decimal_ℤ, compare, then_by}
use volans.Text.Decimal.{strcmp_refl, strcmp_eq, strcmp-decimal_within}
use volans.Record.{Dictionary, recordcopy}
use volans.Index.{Rbtree, Index, indexinsert}
use volans.Index.Searches.{is_equal_lem}
use volans.Table.{Nodes, tableget, tablestore, write}
use volans.Table.Laws.{Maps, tableget-write_self}
use volans.Views.Changes.{Change}
use volans.Views.Store.{View, replaced_at, recordgetid, own_record}
use volans.Views.Usable.{Walks, IsUsable, IsDecided, Like, recordcopy-IsUsable, indexinsert-Like}
use volans.Views.Calls.{IsInput, id_text, own_record_first, recordgetid_lem, with_entry}
use volans.Views.Apply.{insert_each, insert_all, apply_change, is_hit, is_some}

strcmp-prefix : (t x y : List ℕ) → strcmp (t ++ x) (t ++ y) ≡ strcmp x y
strcmp-prefix [] x y = refl
strcmp-prefix (b ∷ t) x y = ground (arith, strcmp-prefix t x y)

strcmp-decimal :
    (a b : ℕ)
    → a < 10 ^ 20
    → b < 10 ^ 20
    → length (decimal a) ≡ length (decimal b)
    → strcmp (decimal a) (decimal b) ≡ compare a b
unfolding decimal
strcmp-decimal a b ha hb h = strcmp-decimal_within 19 a b ha hb h

compare-suc : (n : ℕ) → is_equal (compare (suc n) n) ≡ false
compare-suc n = ground arith

-- The texts of a number and of the next one differ.
decimal-suc : (n : ℕ) → suc n < 10 ^ 20 → is_equal (strcmp (decimal (suc n)) (decimal n)) ≡ false
decimal-suc n h = elim (Bool-cases (is_equal (strcmp (decimal (suc n)) (decimal n)))) [
  | inr e ↦ e
  | inl e ↦
      let same = strcmp_eq (decimal (suc n)) (decimal n) (is_equal_lem _ e) in
      ap is_equal (strcmp-decimal (suc n) n h (omega arith) (ap length same)) ∙ compare-suc n
]

-- The id of a record and of its copy differ.
id_of_copy :
    (text : List ℕ) (n : ℕ)
    → suc n < 10 ^ 20
    → is_equal (strcmp (text ++ 32 ∷ decimal (suc n)) (text ++ 32 ∷ decimal n)) ≡ false
id_of_copy text n h =
    ap is_equal (strcmp-prefix text (32 ∷ decimal (suc n)) (32 ∷ decimal n)) ∙ decimal-suc n h

module _ {Rr Tree : Type 0} (rb : Rbtree Tree) (walks : Walks rb) (heap : ℕ → Dictionary Rr)
    (usable : (a : ℕ) → IsUsable (heap a)) where
  abbrev pub Decided : Index Rr Tree → Type 0
  Decided ix = IsDecided ix.acceptfunc

  pub insert_each-All :
      (r : ℕ) (ixs : List (Index Rr Tree))
      → All (λ ix. IsDecided ix.acceptfunc) ixs
      → (ixs' : List (Index Rr Tree)) × (insert_each rb heap r ixs ≡ some ixs')
        × All (λ ix. IsDecided ix.acceptfunc) ixs'
  unfolding insert_each
  insert_each-All r [] h = ([], refl, tt)
  insert_each-All r (ix ∷ ixs) h =
      let (rc, ix', e, like) = indexinsert-Like rb walks heap usable ix h.0 r in
      let (ixs', es, hs) = insert_each-All r ixs h.1 in
      (ix' ∷ ixs', ground (arith, e, es), (subst IsDecided (sym like.1) h.0, hs))

module _ {Rr Tree Log : Type 0} where
  -- Every record can be read, and every index decides.
  pub record IsServed (v : View Rr Tree Log) : Type 0 where
    pub usable : (a : ℕ) → IsUsable (v.heap a)
    pub first : IsDecided v.index.acceptfunc
    pub rest : All (λ ix. IsDecided ix.acceptfunc) v.others

next : (n : ℕ) → pos n +ℤ pos 1 ≡ pos (suc n)
unfolding ◌+ℤ◌
next n = ground arith

module _ {Rr Tree Log : Type 0} (rb : Rbtree Tree) (walks : Walks rb) (ns : Nodes Change Log)
    (maps : Maps ns) (dname_hash : List ℕ → Option (List ℕ) → Option (List ℕ)) where
  -- A record is inserted, and what is left is again served and has the change table.
  pub insert_all-IsServed :
      (v : View Rr Tree Log) (r : ℕ)
      → IsServed v
      → (v' : View Rr Tree Log) × (insert_all rb ns dname_hash r v ≡ some (tt, v'))
        × IsServed v'
        × (v'.changelog ≡ v.changelog)
        × (v'.heap ≡ v.heap)
        × (v'.index.keyname ≡ v.index.keyname)
  unfolding insert_all
  insert_all-IsServed v r s =
      let (rc, ix, e, like) = indexinsert-Like rb walks v.heap s.usable v.index s.first r in
      let (others, es, hs) = insert_each-All rb walks v.heap s.usable r v.others s.rest in
      (
        record v { index = ix; others = others },
        ground (arith, e, es),
        record { usable = s.usable; first = subst IsDecided (sym like.1) s.first; rest = hs },
        refl,
        refl,
        like.0,
      )

  -- A change to a record whose id has no entry is no conflict.
  apply_unseen :
      (w : View Rr Tree Log) (ch : Change) (r : ℕ) (id : List ℕ)
      → IsServed w
      → ch.newrecord ≡ some r
      → recordgetid (w.heap r) ≡ some id
      → tableget ns w.changelog id ≡ none
      → (w' : View Rr Tree Log) × (apply_change rb ns dname_hash (some ch) false w
          ≡ some (false, w'))
  unfolding apply_change
  apply_unseen w ch r id s e f g =
      let (w', i, s', l, h, k) = insert_all-IsServed w r s in (w', ground (arith, e, f, g, i))

  id_of_recordcopy :
      (d copy : Dictionary Rr) (text : List ℕ) (n : ℕ)
      → IsUsable d
      → recordcopy d ≡ some copy
      → d.name ≡ some text
      → d.revision ≡ pos n
      → recordgetid copy ≡ some (text ++ 32 ∷ decimal (suc n))
  id_of_recordcopy d copy text n u e named rev =
      let (copy', e', u', cn, cr) = recordcopy-IsUsable d u in
      let same : copy' ≡ copy = cc (e, e') in
      recordgetid_lem copy text (sym (ap (λ c. c.name) same) ∙ cn ∙ named)
      ∙ ap (λ z. some (text ++ 32 ∷ decimal_ℤ z))
          (sym (ap (λ c. c.revision) same) ∙ cr ∙ ap (λ z. z +ℤ pos 1) rev ∙ next n)

  -- Where two views have changed one record, a conflict is not seen: where a view of the input
  -- calls names_own on a record of some revision for the first time, the new record comes into its
  -- change table under the id of the old one, and where another view then applies that change,
  -- whose only own change is one of the same record, its flag for a conflict stays off. The
  -- revision has at most 20 digits, and the indices of the other view decide about readable
  -- records.
  pub apply_change-own_record :
      (v w : View Rr Tree Log) (r n : ℕ) (text : List ℕ) (ch : Change)
      → IsInput v
      → (v.heap r).name ≡ some text
      → (v.heap r).revision ≡ pos n
      → suc n < 10 ^ 20
      → tableget ns v.changelog (id_text text (v.heap r)) ≡ none
      → tableget ns w.changelog (id_text text (v.heap r)) ≡ some ch
      → ((j : List ℕ)
          → is_equal (strcmp j (id_text text (v.heap r))) ≡ false
          → tableget ns w.changelog j ≡ none)
      → IsDecided w.index.acceptfunc
      → All (λ ix. IsDecided ix.acceptfunc) w.others
      → (r' : ℕ) × (v' w' : View Rr Tree Log) × (mine : Change) × (own_record rb ns dname_hash r v
          ≡ some (r', v'))
        × (tableget ns v'.changelog (id_text text (v.heap r)) ≡ some mine)
        × (mine.newrecord ≡ some r')
        × (apply_change rb ns dname_hash (some mine) false (record w { heap = v'.heap })
            ≡ some (false, w'))
  apply_change-own_record v w r n text ch input named rev bound mine theirs only first rest =
      let (copy, ix, ce, oe, input') =
        own_record_first rb walks ns maps dname_hash v input r text named mine in
      let id_e = id_of_recordcopy (v.heap r) copy text n (input.usable r) ce named rev in
      let unseen = only (text ++ 32 ∷ decimal (suc n)) (
        ap (λ z. is_equal (strcmp (text ++ 32 ∷ decimal (suc n)) (text ++ 32 ∷ decimal_ℤ z))) rev
        ∙ id_of_copy text n bound) in
      let heap' = replaced_at v.heap v.fresh copy in
      let (w', we) =
        apply_unseen (record w { heap = heap' })
          (record { newrecord = some v.fresh; oldrecord = some r }) v.fresh
          (text ++ 32 ∷ decimal (suc n))
          (record { usable = input'.usable; first = first; rest = rest }) refl
          (ground (arith, id_e)) unseen in
      (
        v.fresh,
        _,
        w',
        record { newrecord = some v.fresh; oldrecord = some r },
        oe,
        tableget-write_self ns maps v.changelog (id_text text (v.heap r)) _ _,
        refl,
        we,
      )
