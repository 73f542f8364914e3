-- ===== src/Record/WellFormed.antt =====
-- The invariant of the records that `rrset_add_rr` builds, and `names_recordhasdata` on them.
use volans.Prelude.{
  ℕ, ◌≡◌, ◌≢◌, refl, true, false, ◌&&◌, ◌||◌, inl, inr, Option, none, some, List, [], ◌∷◌, ◌++◌,
  arith, ◌==◌, All, All-append, All-map, Bool-cases, Option-cases,
}
use volans.Ldns.{Ldns, Compares}
use volans.Record.{Array, minus, null, at, elements, Itemset, Dictionary, recordcreate}
use volans.Record.Data.{is_nonempty, find_item, recordhasdata, add_item, add_to_sets, add_rr}
use volans.Record.Holds.{holds, holds-append, looks-add}

module _ {Rr : Type 0} ⦃l : Ldns Rr⦄ (laws : Compares l) where
  -- No two items have the same data.
  abbrev pub NoTwin : List Rr → Type 0
  NoTwin [] = Unit
  NoTwin (x ∷ xs) = (holds laws x xs ≡ false) × NoTwin xs

  -- A set has items, all of its type, and no two alike.
  abbrev pub WellItems : ℕ → List Rr → Type 0
  WellItems t ys = (is_nonempty ys ≡ true) × All (λ y. l.type_of y ≡ t) ys × NoTwin ys

  -- The sets have different types.
  abbrev pub DistinctTypes : List (Itemset Rr) → Type 0
  DistinctTypes [] = Unit
  DistinctTypes (s ∷ sets) = All (λ t. t.rrtype ≢ s.rrtype) sets × DistinctTypes sets

  pub record IsWellFormed (d : Dictionary Rr) : Type 0 where
    pub counted : d.itemsets ≢ minus
    pub sets : All (λ s. WellItems s.rrtype (elements s.items)) (elements d.itemsets)
    pub types : DistinctTypes (elements d.itemsets)

  NoTwin-append :
      (rr : Rr) (ys : List Rr) → NoTwin ys → holds laws rr ys ≡ false → NoTwin (ys ++ rr ∷ [])
  NoTwin-append rr [] n h = (refl, tt)
  NoTwin-append rr (y ∷ ys) n h = (
    ground (arith, holds-append laws y rr ys, laws.same_symm y rr, n.0),
    NoTwin-append rr ys n.1 (ground arith),
  )

  items_of : (items : Array Rr) → is_nonempty (elements items) ≡ true → items ≢ minus
  items_of minus h e = cc
  items_of null h e = cc
  items_of (at xs) h e = cc

  append_nonempty : (rr : Rr) (ys : List Rr) → is_nonempty (ys ++ rr ∷ []) ≡ true
  append_nonempty rr [] = refl
  append_nonempty rr (y ∷ ys) = refl

  find_item-holds : (rr : Rr) (ys : List Rr) → find_item rr ys ≡ none → holds laws rr ys ≡ false
  find_item-holds rr [] h = refl
  find_item-holds rr (y ∷ ys) h = ground (arith, find_item-holds rr ys)

  add_item-WellItems :
      (rr : Rr) (t : ℕ) (items : Array Rr)
      → l.type_of rr ≡ t
      → WellItems t (elements items)
      → WellItems t (elements (add_item rr items))
  add_item-WellItems rr t minus e w = cc (w.0)
  add_item-WellItems rr t null e w = cc (w.0)
  add_item-WellItems rr t (at ys) e w = elim (Option-cases (find_item rr ys)) [
    | inl new ↦
        rw (new, elements)
          (
            append_nonempty rr ys,
            All-append (λ y. l.type_of y ≡ t) ys (rr ∷ []) w.1 (e, tt),
            NoTwin-append rr ys w.2 (find_item-holds rr ys new),
          )
    | inr (x, old) ↦ rw (old, elements) w
  ]

  add_to_sets-types :
      (rr : Rr) (t : ℕ) (sets : List (Itemset Rr))
      → l.type_of rr ≢ t
      → All (λ s. s.rrtype ≢ t) sets
      → All (λ s. s.rrtype ≢ t) (add_to_sets rr sets)
  add_to_sets-types rr t [] n h = (n, tt)
  add_to_sets-types rr t (s ∷ sets) n h = elim (Bool-cases (l.type_of rr == s.rrtype)) [
    | inl e ↦ rw e (h.0, h.1)
    | inr e ↦ rw e (h.0, add_to_sets-types rr t sets n h.1)
  ]

  add_to_sets-WellFormed :
      (rr : Rr) (sets : List (Itemset Rr))
      → All (λ s. WellItems s.rrtype (elements s.items)) sets
      → DistinctTypes sets
      → All (λ s. WellItems s.rrtype (elements s.items)) (add_to_sets rr sets)
        × DistinctTypes (add_to_sets rr sets)
  add_to_sets-WellFormed rr [] w d = (((refl, (refl, tt), (refl, tt)), tt), (tt, tt))
  add_to_sets-WellFormed rr (s ∷ sets) w d = elim (Bool-cases (l.type_of rr == s.rrtype)) [
    | inl e ↦ rw e ((add_item-WellItems rr s.rrtype s.items (ground arith) w.0, w.1), (d.0, d.1))
    | inr e ↦
        let (w', d') = add_to_sets-WellFormed rr sets w.1 d.1 in
        rw e ((w.0, w'), (add_to_sets-types rr s.rrtype sets (ground arith) d.0, d'))
  ]

  added : Dictionary Rr → Rr → Dictionary Rr
  added d rr = record d { itemsets = at (add_to_sets rr (elements d.itemsets)) }

  add_rr-added :
      (d : Dictionary Rr) (rr : Rr) → d.itemsets ≢ minus → add_rr d rr ≡ some (added d rr)
  unfolding add_rr added
  add_rr-added d rr h = ground (arith, h)

  -- Adding a resource record to a well-formed record (no set is empty or holds two items with the
  -- same data or an item of another type, and no two sets have one type) succeeds and leaves it
  -- well formed.
  pub add_rr-IsWellFormed :
      (d : Dictionary Rr) (rr : Rr)
      → IsWellFormed d
      → (d' : Dictionary Rr) × (add_rr d rr ≡ some d') × IsWellFormed d'
  unfolding added
  add_rr-IsWellFormed d rr w =
      let (sets, types) = add_to_sets-WellFormed rr (elements d.itemsets) w.sets w.types in
      (
        added d rr,
        add_rr-added d rr w.counted,
        record { counted = λ e. cc e; sets = sets; types = types },
      )

  not_minus :
      (sets : List (Itemset Rr))
      → All (λ s. WellItems s.rrtype (elements s.items)) sets
      → All (λ s. s.items ≢ minus) sets
  not_minus sets =
      All-map (λ s. WellItems s.rrtype (elements s.items)) (λ s. s.items ≢ minus) sets
        (λ s h. items_of s.items h.0)

  -- After a resource record was added to a well-formed record, one is found, by a type that is not
  -- 0 and by its data, exactly if it was found before or has the type and data of the added one.
  pub recordhasdata-add_rr :
      (d d' : Dictionary Rr) (rr x : Rr) (t : ℕ)
      → IsWellFormed d
      → add_rr d rr ≡ some d'
      → t ≢ 0
      → recordhasdata d' t (some x) false
        ≡ (recordhasdata d t (some x) false || (t == l.type_of rr && l.same_data x rr))
  unfolding recordhasdata added
  recordhasdata-add_rr d d' rr x t w e n =
      let e' : added d rr ≡ d' = cc (add_rr-added d rr w.counted) in
      rw (← e') (
        ground (
          arith,
          looks-add laws x rr t (elements d.itemsets) (not_minus (elements d.itemsets) w.sets),
        ))

  -- A record that was just created is well formed.
  pub recordcreate-IsWellFormed : (name : Option (List ℕ)) → IsWellFormed (recordcreate name)
  unfolding recordcreate
  recordcreate-IsWellFormed name = record { counted = λ e. cc e; sets = tt; types = tt }
