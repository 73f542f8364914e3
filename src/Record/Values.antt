-- ===== src/Record/Values.antt =====
-- `names_recordallvalues` and `names_recordcopy`.
use mathlib.Core.Option
use volans.Prelude.{
  ℕ, zero, suc, ◌+◌, ◌≤◌, ◌<◌, ◌≡◌, refl, ap, Bool, true, Option, none, some, List, [], ◌∷◌, map,
  arith, length, drop, get_elem?,
}
use volans.Prelude.Int.{◌+ℤ◌, pos}
use volans.Ldns.{Ldns}
use volans.Record.{
  Array, minus, null, at, elements, Itemset, Dictionary, recordcopy, copy_itemset, copy_array,
}
use volans.Record.Data.{
  is_nonempty, find_set, in_set, has_item, recordhasdata, values_from, recordallvalues,
}

module _ {Rr : Type 0} where
  -- The counts that end the loop of `names_recordallvalues` after exactly `left` more rounds: the
  -- sets from set j on have more than j, j + 1, ... items, and the last one looked at has not.
  abbrev pub Ladder : ℕ → ℕ → List (Itemset Rr) → Type 0
  Ladder left j [] = ⊥
  Ladder zero j (s ∷ sets) = length (elements s.items) ≤ j
  Ladder (suc left) j (s ∷ sets) = (j < length (elements s.items)) × Ladder left (suc j) sets

  drop-step :
      (items : List Rr) (j : ℕ)
      → j < length items
      → (x : Rr) × (get_elem? items j ≡ some x) × (drop j items ≡ x ∷ drop (suc j) items)
  drop-step [] j h = absurd (omega arith)
  drop-step (x ∷ xs) zero h = (x, refl, refl)
  drop-step (x ∷ xs) (suc j) h = drop-step xs j (omega arith)

  drop-all : (items : List Rr) (j : ℕ) → length items ≤ j → drop j items ≡ []
  drop-all [] zero h = refl
  drop-all [] (suc j) h = refl
  drop-all (x ∷ xs) zero h = absurd (omega arith)
  drop-all (x ∷ xs) (suc j) h = drop-all xs j (omega arith)

  values_from-drop :
      (items : List Rr) (sets : List (Itemset Rr)) (left j : ℕ)
      → left + j ≡ length items
      → Ladder left j sets
      → values_from items sets j ≡ some (drop j items)
  unfolding values_from
  values_from-drop items [] zero j e h = absurd h
  values_from-drop items [] (suc left) j e h = absurd h
  values_from-drop items (s ∷ sets) zero j e h = ground (arith, drop-all items j)
  values_from-drop items (s ∷ sets) (suc left) j e h =
      let (x, at_j, split) = drop-step items j (omega arith) in
      ground (arith, at_j, split, values_from-drop items sets left (suc j) (omega arith) h.1, h.0)

  -- All items of the first set of a type are listed if the counts of the record's sets, from the
  -- first on, exceed 0, 1, 2 and so on for as many sets as there are items, and the count of the
  -- set after these does not.
  pub recordallvalues-Ladder :
      (d : Dictionary Rr) (t : ℕ) (s : Itemset Rr)
      → find_set t (elements d.itemsets) ≡ some s
      → Ladder (length (elements s.items)) 0 (elements d.itemsets)
      → recordallvalues d t ≡ some (some (elements s.items))
  unfolding recordallvalues
  recordallvalues-Ladder d t s f h = ground (
    arith,
    f,
    values_from-drop (elements s.items) (elements d.itemsets) (length (elements s.items)) 0
        (omega arith) h,
  )

  values_from-single :
      (s : Itemset Rr) (items : List Rr)
      → elements s.items ≡ items
      → is_nonempty items ≡ true
      → values_from items (s ∷ []) 0 ≡ none
  unfolding values_from
  values_from-single s [] e h = cc
  values_from-single s (x ∷ xs) e h = ground (arith, e)

  -- Listing the type of the only set of a record, which has items, reads beyond the sets.
  pub recordallvalues_single :
      (d : Dictionary Rr) (s : Itemset Rr)
      → elements d.itemsets ≡ s ∷ []
      → is_nonempty (elements s.items) ≡ true
      → recordallvalues d s.rrtype ≡ none
  unfolding recordallvalues
  recordallvalues_single d s e h = ground (arith, e, values_from-single s (elements s.items) refl h)

  find_set-copy :
      (t : ℕ) (sets : List (Itemset Rr))
      → find_set t (map copy_itemset sets) ≡ Option.map copy_itemset (find_set t sets)
  find_set-copy t [] = refl
  find_set-copy t (s ∷ sets) = ground (arith, find_set-copy t sets)

  map_self : (xs : List Rr) → map (λ x. x) xs ≡ xs
  map_self [] = refl
  map_self (x ∷ xs) = ap (λ r. x ∷ r) (map_self xs)

  elements-copy : (items : Array Rr) → elements (copy_array (λ x. x) items) ≡ elements items
  elements-copy minus = refl
  elements-copy null = refl
  elements-copy (at xs) = map_self xs

  elements-copy_sets :
      (sets : Array (Itemset Rr))
      → elements (copy_array copy_itemset sets) ≡ map copy_itemset (elements sets)
  elements-copy_sets minus = refl
  elements-copy_sets null = refl
  elements-copy_sets (at xs) = refl

  map-nonempty : (sets : List (Itemset Rr)) → is_nonempty (map copy_itemset sets) ≡ is_nonempty sets
  map-nonempty [] = refl
  map-nonempty (s ∷ sets) = refl

module _ {Rr : Type 0} ⦃l : Ldns Rr⦄ where
  in_set-copy :
      (x : Option Rr) (exact : Bool) (o : Option (Itemset Rr))
      → in_set x exact (Option.map copy_itemset o) ≡ in_set x exact o
  in_set-copy x exact none = refl
  in_set-copy none exact (some s) = ap is_nonempty (elements-copy s.items)
  in_set-copy (some rr) exact (some s) = ap (has_item rr exact) (elements-copy s.items)

  -- A copy that names_recordcopy makes has the name, the span hash and the data of its record and
  -- the next revision, and has no marker, validity or expiry.
  pub recordcopy_lem :
      (d d' : Dictionary Rr) (t : ℕ) (x : Option Rr) (exact : Bool)
      → recordcopy d ≡ some d'
      → (recordhasdata d' t x exact ≡ recordhasdata d t x exact)
        × (d'.name ≡ d.name)
        × (d'.spanhash ≡ d.spanhash)
        × (d'.revision ≡ d.revision +ℤ pos 1)
        × (d'.marker ≡ pos 0)
        × (d'.validfrom ≡ none)
        × (d'.validupto ≡ none)
        × (d'.expiry ≡ none)
  unfolding recordhasdata recordcopy
  recordcopy_lem d d' t x exact e = ground (
    arith,
    elements-copy_sets d.itemsets,
    map-nonempty (elements d.itemsets),
    find_set-copy t (elements d.itemsets),
    in_set-copy x exact (find_set t (elements d.itemsets)),
  )
