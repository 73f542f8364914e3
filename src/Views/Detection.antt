-- ===== src/Views/Detection.antt =====
-- The flag `conflict` of `updateview` after the loop over the changes of another view.
mod Tests
use volans.Prelude.{
  ℕ, ◌≡◌, ◌≢◌, refl, sym, ap, subst, ◌∙◌, Bool, true, false, ◌||◌, Option, none, some, List, [],
  ◌∷◌, map, arith, All, Bool-cases, Option-cases, inl, inr, ◌⊎◌,
}
use volans.Record.{Dictionary}
use volans.Record.Keys.{nameupcoming}
use volans.Index.{Rbtree, Index, indexinsert}
use volans.Table.{Nodes, tableget}
use volans.Table.Laws.{Maps}
use volans.Views.Changes.{Change}
use volans.Views.Store.{View, recordgetid}
use volans.Views.Usable.{Walks, IsUsable, IsDecided, Like, indexinsert-Like, indexremove_nothing}
use volans.Views.Calls.{IsInput, recordgetid_lem}
use volans.Views.Conflicts.{IsServed, insert_all-IsServed}
use volans.Views.Apply.{
  insert_all, apply_change, apply_table, is_some, resetchangelog, reset_change, reset_changes,
  remove_new, insert_old,
}

-- A change that holds a record.
abbrev pub HasRecord : Option Change → Type 0
HasRecord c = (ch : Change) × (r : ℕ) × (c ≡ some ch) × (ch.newrecord ≡ some r)

module _ {Rr Tree Log : Type 0} where
  -- A view with the index of the input view first, whose other indices decide.
  pub record IsServing (v : View Rr Tree Log) : Type 0 where
    pub keyed : v.index.keyname ≡ nameupcoming
    pub served : IsServed v

module _ {Log : Type 0} (ns : Nodes Change Log) where
  -- Whether the table of a view has an entry for the id of the record of a change.
  abbrev has_entry : Log → Option (List ℕ) → Bool
  has_entry log none = false
  has_entry log (some id) = is_some (tableget ns log id)

  abbrev pub names_entry : {Rr : Type 0} → (ℕ → Dictionary Rr) → Log → Option Change → Bool
  names_entry heap log none = false
  names_entry heap log (some ch) = elim ch.newrecord [
    | none ↦ false
    | some r ↦ has_entry log (recordgetid (heap r))
  ]

  abbrev pub any_entry : {Rr : Type 0} → (ℕ → Dictionary Rr) → Log → List (Option Change) → Bool
  any_entry heap log [] = false
  any_entry heap log (c ∷ cs) = names_entry heap log c || any_entry heap log cs

All_items :
    {Key Data : Type 0} (ns : List (Key × Option Data))
    → All (λ n. n.1 ≢ none) ns
    → All (λ c. c ≢ none) (map (λ n. n.1) ns)
All_items [] h = tt
All_items ((k, c) ∷ ns) h = (h.0, All_items ns h.1)

pub named_id :
    {Rr : Type 0} (d : Dictionary Rr) → IsUsable d → (id : List ℕ) × (recordgetid d ≡ some id)
named_id d u = elim (Option-cases d.name) [
  | inl e ↦ absurd (u.named e)
  | inr (text, e) ↦ (_, recordgetid_lem d text e)
]

module _ {Rr Tree Log : Type 0} (rb : Rbtree Tree) (walks : Walks rb) (ns : Nodes Change Log)
    (maps : Maps ns) (dname_hash : List ℕ → Option (List ℕ) → Option (List ℕ)) where
  abbrev pub Reset : View Rr Tree Log → Option (Unit {0} × View Rr Tree Log) → Type 0
  Reset v o =
      (v' : View Rr Tree Log) × (o ≡ some (tt, v'))
      × IsServing v'
      × (v'.heap ≡ v.heap)
      × (v'.apex ≡ v.apex)
      × (v'.pending ≡ v.pending)

  remove_new-IsServing :
      (v : View Rr Tree Log) (o : Option ℕ)
      → IsServing v
      → remove_new rb ns dname_hash o v ≡ some (tt, v)
  remove_new-IsServing v none s = refl
  remove_new-IsServing v (some r) s =
      ground (arith, indexremove_nothing rb v.heap s.served.usable v.index s.keyed r v.fresh)

  insert_old-IsServing :
      (v : View Rr Tree Log) (o : Option ℕ)
      → IsServing v
      → Reset v (insert_old rb ns dname_hash o v)
  insert_old-IsServing v none s = (v, refl, s, refl, refl, refl)
  insert_old-IsServing v (some r) s =
      let (rc, ix, e, like) =
        indexinsert-Like rb walks v.heap s.served.usable v.index s.served.first r in
      (
        record v { index = ix },
        ground (arith, e),
        record {
          keyed = like.0 ∙ s.keyed;
          served = record {
            usable = s.served.usable;
            first = subst IsDecided (sym like.1) s.served.first;
            rest = s.served.rest;
          };
        },
        refl,
        refl,
        refl,
      )

  reset_changes-IsServing :
      (cs : List (Option Change)) (v : View Rr Tree Log)
      → All (λ c. c ≢ none) cs
      → IsServing v
      → Reset v (reset_changes rb ns dname_hash cs v)
  reset_changes-IsServing [] v h s = (v, refl, s, refl, refl, refl)
  reset_changes-IsServing (none ∷ cs) v h s = absurd (h.0 refl)
  reset_changes-IsServing (some ch ∷ cs) v h s =
      let (v1, e1, s1, h1, a1, p1) = insert_old-IsServing v ch.oldrecord s in
      let (v2, e2, s2, h2, a2, p2) = reset_changes-IsServing cs v1 h.1 s1 in
      (
        v2,
        ground (arith, remove_new-IsServing v ch.newrecord s, e1, e2),
        s2,
        h2 ∙ h1,
        a2 ∙ a1,
        p2 ∙ p1,
      )

  -- `resetchangelog` goes through and leaves such a view.
  pub resetchangelog-IsServing :
      (v : View Rr Tree Log)
      → All (λ n. n.1 ≢ none) (ns.nodes v.changelog)
      → IsServing v
      → Reset v (resetchangelog rb ns dname_hash v)
  unfolding resetchangelog
  resetchangelog-IsServing v h s =
      let (v', e, s', p, a, q) =
        reset_changes-IsServing (map (λ n. n.1) (ns.nodes v.changelog)) v
          (All_items (ns.nodes v.changelog) h) s in
      (
        record v' { changelog = ns.create },
        ground (arith, e),
        record {
          keyed = s'.keyed;
          served = record {
            usable = s'.served.usable;
            first = s'.served.first;
            rest = s'.served.rest;
          };
        },
        p,
        a,
        q,
      )

  -- Once there is a conflict, it stays.
  apply_table_again :
      (cs : List (Option Change)) (v : View Rr Tree Log)
      → All HasRecord cs
      → IsServed v
      → (v' : View Rr Tree Log) × (apply_table rb ns dname_hash cs true v ≡ some (true, v'))
  unfolding apply_table apply_change
  apply_table_again [] v h s = (v, refl)
  apply_table_again (c ∷ cs) v h s =
      let (ch, r, ce, re) = h.0 in
      let (id, ie) = named_id (v.heap r) (s.usable r) in
      let (v1, e1, s1, l1, h1, k1) = insert_all-IsServed rb walks ns maps dname_hash v r s in
      let (v2, e2) = apply_table_again cs v1 h.1 s1 in (v2, ground (arith, ce, re, ie, e1, e2))

  -- After updateview applied a change log, which goes through, its flag for a conflict is on
  -- exactly if some change in it is of a record whose id had an entry in the view's change table
  -- before, though the first such change empties that table. Every change has a new record and no
  -- entry is NULL; the view has the index of upcoming records first and indices that decide, and
  -- all records have a name and a hash of it, and the count of no array of sets is -1.
  pub apply_table-any_entry :
      (cs : List (Option Change)) (v : View Rr Tree Log)
      → All HasRecord cs
      → All (λ n. n.1 ≢ none) (ns.nodes v.changelog)
      → IsServing v
      → (v' : View Rr Tree Log) × (apply_table rb ns dname_hash cs false v
          ≡ some (any_entry ns v.heap v.changelog cs, v'))
  unfolding apply_table apply_change
  apply_table-any_entry [] v h n s = (v, refl)
  apply_table-any_entry (c ∷ cs) v h n s =
      let (ch, r, ce, re) = h.0 in
      let (id, ie) = named_id (v.heap r) (s.served.usable r) in
      elim (Bool-cases (is_some (tableget ns v.changelog id))) [
        | inl hit ↦
            let (v0, e0, s0, h0, a0, p0) = resetchangelog-IsServing v n s in
            let (v1, e1, s1, l1, h1, k1) =
              insert_all-IsServed rb walks ns maps dname_hash v0 r s0.served in
            let (v2, e2) = apply_table_again cs v1 h.1 s1 in
            (v2, ground (arith, ce, re, ie, hit, e0, e1, e2))
        | inr miss ↦
            let (v1, e1, s1, l1, h1, k1) =
              insert_all-IsServed rb walks ns maps dname_hash v r s.served in
            let (v2, e2) =
              apply_table-any_entry cs v1 h.1
                (subst (λ log. All (λ n. n.1 ≢ none) (ns.nodes log)) (sym l1) n)
                (record { keyed = k1 ∙ s.keyed; served = s1 }) in
            (v2, ground (arith, ce, re, ie, miss, e1, e2, l1, h1))
      ]
