-- ===== src/Record/Deletion.antt =====
-- `names_recorddeldata` and `names_recorddelall`, observed by `names_recordhasdata`.
use mathlib.Core.Option
use volans.Prelude.{
  ℕ, ◌≡◌, ◌≢◌, refl, subst, Bool, true, false, inl, inr, Option, none, some, List, [], ◌∷◌, ◌++◌,
  ◌∙◌, ap, arith, ◌==◌, if◌then◌else◌, All, Bool-cases, Option-cases,
}
use volans.Ldns.{Ldns, Compares}
use volans.Record.{at, elements, Itemset, Dictionary}
use volans.Record.Data.{
  find_set, replace_set, remove_set, shrunk, has_item, recordhasdata, without_item, recorddeldata,
  recorddelall,
}
use volans.Record.WellFormed.{IsWellFormed, WellItems}

module _ {Rr : Type 0} where
  pub find_set-replace :
      (t u : ℕ) (s' s : Itemset Rr) (sets : List (Itemset Rr))
      → find_set t sets ≡ some s
      → s'.rrtype ≡ s.rrtype
      → find_set u (replace_set t s' sets) ≡ (if t == u then some s' else find_set u sets)
  find_set-replace t u s' s [] e f = cc
  find_set-replace t u s' s (z ∷ zs) e f = ground (arith, find_set-replace t u s' s zs)

  find_set-remove :
      (t u : ℕ) (sets : List (Itemset Rr))
      → u ≢ t
      → find_set u (remove_set t sets) ≡ find_set u sets
  find_set-remove t u [] n = refl
  find_set-remove t u (z ∷ zs) n = ground (arith, find_set-remove t u zs)

elements-shrunk : {A : Type 0} (xs : List A) → elements (shrunk xs) ≡ xs
elements-shrunk [] = refl
elements-shrunk (x ∷ xs) = refl

module _ {Rr : Type 0} ⦃l : Ldns Rr⦄ where
  -- The item that goes is not one with the data of `rr`.
  has_item-without :
      (rr : Rr) (ys rest : List Rr)
      → without_item rr ys ≡ some rest
      → has_item rr false rest ≡ has_item rr false ys
  has_item-without rr [] rest e = cc
  has_item-without rr (y ∷ ys) rest e = elim (Option-cases (without_item rr ys)) [
    | inl n ↦ ground (arith, n)
    | inr (r, f) ↦ ground (arith, f)
  ]

  -- What `names_recorddeldata` does, case by case.
  data Deleted (d : Dictionary Rr) (t : ℕ) (rr : Rr) : Type 0 where
    nothing : recorddeldata d t rr ≡ d → Deleted d t rr
    item :
        (s : Itemset Rr) (x : Rr) (rest : List Rr) (d' : Dictionary Rr)
        → find_set t (elements d.itemsets) ≡ some s
        → without_item rr (elements s.items) ≡ some (x ∷ rest)
        → recorddeldata d t rr ≡ d'
        → elements d'.itemsets
          ≡ replace_set t (record s { items = at (x ∷ rest) }) (elements d.itemsets)
        → Deleted d t rr
    set :
        (s : Itemset Rr) (d' : Dictionary Rr)
        → find_set t (elements d.itemsets) ≡ some s
        → without_item rr (elements s.items) ≡ some []
        → recorddeldata d t rr ≡ d'
        → elements d'.itemsets ≡ remove_set t (elements d.itemsets)
        → Deleted d t rr

  deleted : (d : Dictionary Rr) (t : ℕ) (rr : Rr) → Deleted d t rr
  unfolding recorddeldata
  deleted d t rr = at_set (find_set t (elements d.itemsets)) refl
    where
      at_item :
          (s : Itemset Rr) (o : Option (List Rr))
          → find_set t (elements d.itemsets) ≡ some s
          → without_item rr (elements s.items) ≡ o
          → Deleted d t rr
      at_item s none f g = nothing (ground (arith, f, g))
      at_item s (some []) f g =
          set s (record d { itemsets = shrunk (remove_set t (elements d.itemsets)) }) f g
            (ground (arith, f, g)) (elements-shrunk _)
      at_item s (some (x ∷ rest)) f g =
          item s x rest
            (record d {
              itemsets =
                  shrunk (replace_set t (record s { items = at (x ∷ rest) }) (elements d.itemsets));
            })
            f g (ground (arith, f, g)) (elements-shrunk _)

      at_set : (o : Option (Itemset Rr)) → find_set t (elements d.itemsets) ≡ o → Deleted d t rr
      at_set none f = nothing (ground (arith, f))
      at_set (some s) f = at_item s (without_item rr (elements s.items)) f refl

  -- A record that has the data of a resource record, of a type that is not 0, still has it after
  -- names_recorddeldata of it.
  pub recorddeldata_keeps :
      (d : Dictionary Rr) (t : ℕ) (rr : Rr)
      → t ≢ 0
      → recordhasdata d t (some rr) false ≡ true
      → recordhasdata (recorddeldata d t rr) t (some rr) false ≡ true
  unfolding recordhasdata
  recorddeldata_keeps d t rr n h = elim (deleted d t rr) [
    | nothing e ↦ rw e h
    | item s x rest d' f g e el ↦ rw e (
        ground (
          arith,
          el,
          has_item-without rr (elements s.items) (x ∷ rest) g,
          find_set-replace t t (record s { items = at (x ∷ rest) }) s (elements d.itemsets) f refl,
        ))
    | set s d' f g e el ↦ rw e (ground (arith, has_item-without rr (elements s.items) [] g))
  ]

  without_item-split :
      (rr x : Rr) (before behind : List Rr)
      → All (λ y. l.same_data rr y ≡ true) before
      → l.same_data rr x ≡ false
      → without_item rr (before ++ x ∷ behind) ≡ some (before ++ behind)
  without_item-split rr x [] behind h n = ground (arith, n)
  without_item-split rr x (y ∷ ys) behind h n =
      ground (arith, h.0, without_item-split rr x ys behind h.1 n)

  -- names_recorddeldata of a resource record whose data a record has, of a type that is not 0,
  -- where an item of the set of the type differs from it: the record still has that data, and the
  -- set loses the first item that differs and no other.
  pub recorddeldata_lem :
      (d : Dictionary Rr) (t : ℕ) (rr x : Rr) (s : Itemset Rr) (before behind : List Rr)
      → t ≢ 0
      → find_set t (elements d.itemsets) ≡ some s
      → elements s.items ≡ before ++ x ∷ behind
      → All (λ y. l.same_data rr y ≡ true) before
      → l.same_data rr x ≡ false
      → recordhasdata d t (some rr) false ≡ true
      → (recordhasdata (recorddeldata d t rr) t (some rr) false ≡ true)
        × (find_set t (elements (recorddeldata d t rr).itemsets)
            ≡ some (record s { items = at (before ++ behind) }))
  unfolding recorddeldata recordhasdata
  recorddeldata_lem d t rr x s before behind n f split same other h = (
    recorddeldata_keeps d t rr n h,
    by_rest (before ++ behind)
        (ap (without_item rr) split ∙ without_item-split rr x before behind same other),
  )
    where
      by_rest :
          (rest : List Rr)
          → without_item rr (elements s.items) ≡ some rest
          → find_set t (elements (recorddeldata d t rr).itemsets)
            ≡ some (record s { items = at rest })
      by_rest [] e =
          let gone = has_item-without rr (elements s.items) [] e in
          absurd (ground (arith, n, f, h, gone))
      by_rest (y ∷ ys) e = ground (
        arith,
        f,
        e,
        elements-shrunk (replace_set t (record s { items = at (y ∷ ys) }) (elements d.itemsets)),
        find_set-replace t t (record s { items = at (y ∷ ys) }) s (elements d.itemsets) f refl,
      )

  -- Deleting a resource record of one type changes nothing that is found of another type that is
  -- not 0.
  pub recorddeldata_others :
      (d : Dictionary Rr) (t u : ℕ) (rr : Rr) (x : Option Rr) (exact : Bool)
      → u ≢ 0
      → u ≢ t
      → recordhasdata (recorddeldata d t rr) u x exact ≡ recordhasdata d u x exact
  unfolding recordhasdata
  recorddeldata_others d t u rr x exact n m = elim (deleted d t rr) [
    | nothing e ↦ rw e
    | item s y rest d' f g e el ↦
        rw (e, el)
          (ground (
            arith,
            find_set-replace t u (record s { items = at (y ∷ rest) }) s (elements d.itemsets) f
                refl,
          ))
    | set s d' f g e el ↦ rw (e, el) (ground (arith, find_set-remove t u (elements d.itemsets) m))
  ]

  found_well :
      (laws : Compares l) (t : ℕ) (s : Itemset Rr) (sets : List (Itemset Rr))
      → All (λ s. WellItems laws s.rrtype (elements s.items)) sets
      → find_set t sets ≡ some s
      → WellItems laws s.rrtype (elements s.items)
  found_well laws t s [] w f = cc
  found_well laws t s (z ∷ zs) w f = elim (Bool-cases (z.rrtype == t)) [
    | inl e ↦
        let same_set : z ≡ s = ground arith in
        subst (λ s. WellItems laws s.rrtype (elements s.items)) same_set w.0
    | inr e ↦ found_well laws t s zs w.1 (ground arith)
  ]

  -- In a well-formed record, names_recorddelall of type 0 leaves nothing to be found; of a type
  -- that is there it frees the items twice, and of one that is not there it changes nothing.
  pub recorddelall_cases :
      (laws : Compares l) (d : Dictionary Rr) (t u : ℕ) (x : Option Rr) (exact : Bool)
      → IsWellFormed laws d
      → t ≢ 0
      → (Option.map (λ d'. recordhasdata d' u x exact) (recorddelall d 0) ≡ some false)
        × (recorddelall d t ≡ (if recordhasdata d t none exact then none else some d))
  unfolding recorddelall recordhasdata
  recorddelall_cases laws d t u x exact w n =
      (ground arith, only (find_set t (elements d.itemsets)) refl)
    where
      at_items :
          (s : Itemset Rr)
          → find_set t (elements d.itemsets) ≡ some s
          → WellItems laws s.rrtype (elements s.items)
          → recorddelall d t ≡ (if recordhasdata d t none exact then none else some d)
      at_items s f ws = ground (arith, f, ws.0)

      only :
          (o : Option (Itemset Rr))
          → find_set t (elements d.itemsets) ≡ o
          → recorddelall d t ≡ (if recordhasdata d t none exact then none else some d)
      only none f = ground (arith, f)
      only (some s) f = at_items s f (found_well laws t s (elements d.itemsets) w.sets f)
