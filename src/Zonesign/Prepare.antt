-- ===== src/Zonesign/Prepare.antt =====
-- The second loop of `prepare` of zonesign.c.
use volans.Prelude.{
  ℕ, ◌≡◌, ◌≢◌, refl, sym, ap, ◌∙◌, Bool, true, false, Option, none, some, List, [], ◌∷◌, arith,
  if◌then◌else◌, All, All-map, Option-cases, inl, inr,
}
use volans.Prelude.Int.{ℤ, pos}
use volans.Ldns.{Ldns}
use volans.Record.{
  Dictionary, is_set, once, recordhasvalidupto, recordhasvalidfrom, recordsetvalidupto,
  recordsetvalidfrom, elements,
}
use volans.Record.Data.{recordhasdata, is_nonempty}
use volans.Index.{Rbtree}
use volans.Table.{Nodes}
use volans.Table.Laws.{Maps, tableget-tablestore}
use volans.Text.Decimal.{strcmp_refl}
use volans.Record.Keys.{getset}
use volans.Views.Changes.{Change, change_mod}
use volans.Views.Store.{
  View, >>=-some, >>-some, replaced_at, recordgetid, amend_record, note_changed,
}
use volans.Views.Usable.{Walks}
use volans.Views.Calls.{id_text, recordgetid_lem, note_changed_lem, with_entry, entry_after}
use volans.Zonesign.{
  Dual, is_same, distinct, end_src, end_old, start_new, start_data, renew_pair, each, set_field,
}
use volans.Zonesign.Serials.{
  replaced-field, replaced_self, IsNoted, Later, Later-refl, Later-trans, Dated-is_set,
  Dated-replaced,
}

module _ {Rr Tree Log : Type 0} ⦃l : Ldns Rr⦄ (rb : Rbtree Tree) (walks : Walks rb)
    (ns : Nodes Change Log) (maps : Maps ns)
    (dname_hash : List ℕ → Option (List ℕ) → Option (List ℕ)) (in_order : Tree → List ℕ) where
  abbrev pub AllNamed : View Rr Tree Log → Type 0
  AllNamed v = (a : ℕ) → (v.heap a).name ≢ none

  AllNamed-Later : (z : ℤ) (v v' : View Rr Tree Log) → Later ns z v v' → AllNamed v → AllNamed v'
  AllNamed-Later z v v' h n a e = n a (sym (h.names a) ∙ e)

  -- `names_amend` only notes the change.
  pub noted_lem :
      (z : ℤ) (v : View Rr Tree Log) (r : ℕ)
      → AllNamed v
      → (v' : View Rr Tree Log) × (amend_record rb ns dname_hash r v ≡ some (tt, v'))
        × (v'.heap ≡ v.heap)
        × Later ns z v v'
        × IsNoted ns v' r
  unfolding amend_record
  noted_lem z v r n = elim (Option-cases (v.heap r).name) [
    | inl e ↦ absurd (n r e)
    | inr (text, e) ↦
        let id = id_text text (v.heap r) in
        let found = recordgetid_lem (v.heap r) text e in
        let change = entry_after rb walks ns maps dname_hash v id r change_mod false in
        (
          with_entry rb walks ns maps dname_hash v id change,
          >>=-some (note_changed rb ns dname_hash r change_mod false) _ v
              (note_changed_lem rb walks ns maps dname_hash v r change_mod false id found),
          refl,
          record {
            names = λ a. refl;
            ids = λ a. refl;
            sets = λ a. refl;
            noted = λ j h. ground (arith, h, tableget-tablestore ns maps v.changelog id j change);
            starts = λ a. inl refl;
            ends = λ a. inl refl;
          },
          (
            id,
            found,
            ground (arith, tableget-tablestore ns maps v.changelog id id change, strcmp_refl id),
          ),
        )
  ]

  pub amend_lem :
      (v : View Rr Tree Log) (r : ℕ)
      → AllNamed v
      → (v' : View Rr Tree Log) × (amend_record rb ns dname_hash r v ≡ some (tt, v'))
        × (v'.heap ≡ v.heap)
  amend_lem v r n = let (v', e, h, later, noted) = noted_lem (pos 0) v r n in (v', e, h)

  pub set_field_lem :
      (f : Dictionary Rr → ℤ → Option (Dictionary Rr)) (v : View Rr Tree Log) (r : ℕ) (z : ℤ)
      (d : Dictionary Rr)
      → f (v.heap r) z ≡ some d
      → set_field rb ns dname_hash in_order f r z v
        ≡ some (tt, record v { heap = replaced_at v.heap r d })
  set_field_lem f v r z d e = ground (arith, e)

  end_old_lem :
      (v : View Rr Tree Log) (r : ℕ) (z : ℤ)
      → AllNamed v
      → (v' : View Rr Tree Log) × (end_old rb ns dname_hash in_order
            (recordhasvalidupto (v.heap r))
            r
            z
            v
          ≡ some (tt, v'))
        × Later ns z v v'
        × (is_set (v'.heap r).validupto ≡ true)
  unfolding recordhasvalidupto recordsetvalidupto recordgetid getset
  end_old_lem v r z n = by_field (v.heap r).validupto refl
    where
      by_field :
          (o : Option ℤ)
          → (v.heap r).validupto ≡ o
          → (v' : View Rr Tree Log) × (end_old rb ns dname_hash in_order (is_set o) r z v
              ≡ some (tt, v'))
            × Later ns z v v'
            × (is_set (v'.heap r).validupto ≡ true)
      by_field (some x) e = (v, refl, Later-refl ns z v, ap is_set e)
      by_field none e =
          let (v1, e1, h1, later, note) = noted_lem z v r n in
          let e2 : (v1.heap r).validupto ≡ none = ap (λ heap. (heap r).validupto) h1 ∙ e in
          let d = record (v1.heap r) { validupto = some z } in
          let v2 = record v1 { heap = replaced_at v1.heap r d } in
          (
            v2,
            >>=-some (amend_record rb ns dname_hash r)
                  (λ _. set_field rb ns dname_hash in_order recordsetvalidupto r z) v e1
                ∙ set_field_lem recordsetvalidupto v1 r z d (ap (λ o. once o d) e2),
            Later-trans ns z v v1 v2 later (record {
              names = λ a. replaced-field (λ d. d.name) v1.heap r d a refl;
              ids = λ a. replaced-field recordgetid v1.heap r d a refl;
              sets = λ a. replaced-field (λ d. d.itemsets) v1.heap r d a refl;
              noted = λ id h. h;
              starts = λ a. inl (replaced-field (λ d. d.validfrom) v1.heap r d a refl);
              ends = λ a. Dated-replaced ns (λ d. d.validupto) z v1 r d a e2 refl refl note;
            }),
            ap (λ d. is_set d.validupto) (replaced_self v1.heap r d),
          )

  start_lem :
      (v : View Rr Tree Log) (r : ℕ) (z : ℤ)
      → AllNamed v
      → recordhasdata (v.heap r) 0 none false ≡ true
      → (v' : View Rr Tree Log) × (start_new rb ns dname_hash in_order
            (recordhasvalidfrom (v.heap r))
            r
            z
            v
          ≡ some (tt, v'))
        × Later ns z v v'
        × (is_set (v'.heap r).validfrom ≡ true)
  unfolding recordhasvalidfrom recordsetvalidfrom recordgetid getset
  start_lem v r z n data_lem = by_field (v.heap r).validfrom refl
    where
      by_field :
          (o : Option ℤ)
          → (v.heap r).validfrom ≡ o
          → (v' : View Rr Tree Log) × (start_new rb ns dname_hash in_order (is_set o) r z v
              ≡ some (tt, v'))
            × Later ns z v v'
            × (is_set (v'.heap r).validfrom ≡ true)
      by_field (some x) e = (v, refl, Later-refl ns z v, ap is_set e)
      by_field none e =
          let (v1, e1, h1, later, note) = noted_lem z v r n in
          let e2 : (v1.heap r).validfrom ≡ none = ap (λ heap. (heap r).validfrom) h1 ∙ e in
          let d = record (v1.heap r) { validfrom = some z } in
          let v2 = record v1 { heap = replaced_at v1.heap r d } in
          (
            v2,
            ap (λ b. start_data rb ns dname_hash in_order b r z v) data_lem
                ∙ >>=-some (amend_record rb ns dname_hash r)
                    (λ _. set_field rb ns dname_hash in_order recordsetvalidfrom r z) v e1
                ∙ set_field_lem recordsetvalidfrom v1 r z d (ap (λ o. once o d) e2),
            Later-trans ns z v v1 v2 later (record {
              names = λ a. replaced-field (λ d. d.name) v1.heap r d a refl;
              ids = λ a. replaced-field recordgetid v1.heap r d a refl;
              sets = λ a. replaced-field (λ d. d.itemsets) v1.heap r d a refl;
              noted = λ id h. h;
              starts = λ a. Dated-replaced ns (λ d. d.validfrom) z v1 r d a e2 refl refl note;
              ends = λ a. inl (replaced-field (λ d. d.validupto) v1.heap r d a refl);
            }),
            ap (λ d. is_set d.validfrom) (replaced_self v1.heap r d),
          )

  -- A pair to renew: two records, of which the new one has data.
  abbrev pub IsRenewable : View Rr Tree Log → Dual → Type 0
  IsRenewable v c =
      (is_same c.src c.dst ≡ false) × (recordhasdata (v.heap c.dst) 0 none false ≡ true)

  abbrev ended : View Rr Tree Log → Option ℕ → Bool
  ended v none = true
  ended v (some r) = is_set (v.heap r).validupto

  -- The new record has a serial from which it is valid, and the old one, if there is one, a serial
  -- up to which it was.
  abbrev pub IsRenewed : View Rr Tree Log → Dual → Type 0
  IsRenewed v c = (is_set (v.heap c.dst).validfrom ≡ true) × (ended v c.src ≡ true)

  IsRenewable-Later :
      (z : ℤ) (v v' : View Rr Tree Log) (c : Dual)
      → Later ns z v v'
      → IsRenewable v c
      → IsRenewable v' c
  unfolding recordhasdata
  IsRenewable-Later z v v' c h p = (p.0, ap (λ s. is_nonempty (elements s)) (h.sets c.dst) ∙ p.1)

  ended-Later :
      (z : ℤ) (v v' : View Rr Tree Log) (o : Option ℕ)
      → Later ns z v v'
      → ended v o ≡ true
      → ended v' o ≡ true
  ended-Later z v v' none h e = refl
  ended-Later z v v' (some r) h e = Dated-is_set ns (λ d. d.validupto) z v v' r (h.ends r) e

  end_src_lem :
      (v : View Rr Tree Log) (o : Option ℕ) (z : ℤ)
      → AllNamed v
      → (v' : View Rr Tree Log) × (end_src rb ns dname_hash in_order o z v ≡ some (tt, v'))
        × Later ns z v v'
        × (ended v' o ≡ true)
  end_src_lem v none z n = (v, refl, Later-refl ns z v, refl)
  end_src_lem v (some r) z n = end_old_lem v r z n

  renew_pair_lem :
      (v : View Rr Tree Log) (c : Dual) (z : ℤ)
      → AllNamed v
      → IsRenewable v c
      → (v' : View Rr Tree Log) × (renew_pair rb ns dname_hash in_order z c v ≡ some (tt, v'))
        × Later ns z v v'
        × IsRenewed v' c
  unfolding renew_pair
  renew_pair_lem v c z n p =
      let (v1, e1, h1, d1) = end_src_lem v c.src z n in
      let p1 = IsRenewable-Later z v v1 c h1 p in
      let (v2, e2, h2, s2) = start_lem v1 c.dst z (AllNamed-Later z v v1 h1 n) p1.1 in
      (
        v2,
        >>-some (distinct rb ns dname_hash in_order c) _ v
              (ap (λ b. if b then none else some (tt, v)) p.0)
            ∙ >>-some (end_src rb ns dname_hash in_order c.src z) _ v e1
            ∙ e2,
        Later-trans ns z v v1 v2 h1 h2,
        (s2, ended-Later z v1 v2 c.src h2 d1),
      )

  -- The second loop of prepare goes through, for pairs whose new record has data and is not the
  -- old one, where every record has a name. Afterwards the new record of each pair has a serial
  -- from which it is valid, and its old one, if any, a serial up to which it was. Of every record
  -- each of these two serials is as it was, or it was not set and is the new serial, and then the
  -- change table has an entry for the record; the records keep their names, ids and data.
  pub renew_pairs_lem :
      (cs : List Dual) (v : View Rr Tree Log) (z : ℤ)
      → AllNamed v
      → All (IsRenewable v) cs
      → (v' : View Rr Tree Log) × (each rb ns dname_hash in_order
            (renew_pair rb ns dname_hash in_order z)
            cs
            v
          ≡ some (tt, v'))
        × Later ns z v v'
        × All (IsRenewed v') cs
  renew_pairs_lem [] v z n h = (v, refl, Later-refl ns z v, tt)
  renew_pairs_lem (c ∷ cs) v z n h =
      let (v1, e1, h1, d1) = renew_pair_lem v c z n h.0 in
      let (v2, e2, h2, ds) =
        renew_pairs_lem cs v1 z (AllNamed-Later z v v1 h1 n)
          (All-map (IsRenewable v) (IsRenewable v1) cs (λ x. IsRenewable-Later z v v1 x h1) h.1) in
      (
        v2,
        ground (arith, e1, e2),
        Later-trans ns z v v1 v2 h1 h2,
        (
          (
            Dated-is_set ns (λ d. d.validfrom) z v1 v2 c.dst (h2.starts c.dst) d1.0,
            ended-Later z v1 v2 c.src h2 d1.1,
          ),
          ds,
        ),
      )
