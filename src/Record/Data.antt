-- ===== src/Record/Data.antt =====
-- The resource records of a record: dictionary.c from `names_recordhasdata` to
-- `names_recordallvalues`.
use volans.Prelude.{
  ℕ, suc, Bool, true, false, Option, none, some, List, [], ◌∷◌, ◌++◌, ◌==◌, if◌then◌else◌, length,
  ltb, get_elem?, map,
}
use volans.Ldns.{Ldns}
use volans.Record.{Array, minus, null, at, elements, Itemset, Dictionary}

abbrev pub is_nonempty {ℓ} : {A : Type ℓ} → List A → Bool
is_nonempty [] = false
is_nonempty (x ∷ xs) = true

module _ {Rr : Type 0} where
  -- The loops that stop at the first set of the type: `none` if there is no such set.
  abbrev pub find_set : ℕ → List (Itemset Rr) → Option (Itemset Rr)
  find_set rrtype [] = none
  find_set rrtype (s ∷ sets) = if s.rrtype == rrtype then some s else find_set rrtype sets

  abbrev pub replace_set : ℕ → Itemset Rr → List (Itemset Rr) → List (Itemset Rr)
  replace_set rrtype s' [] = []
  replace_set rrtype s' (s ∷ sets) =
      if s.rrtype == rrtype then s' ∷ sets else s ∷ replace_set rrtype s' sets

  abbrev pub remove_set : ℕ → List (Itemset Rr) → List (Itemset Rr)
  remove_set rrtype [] = []
  remove_set rrtype (s ∷ sets) = if s.rrtype == rrtype then sets else s ∷ remove_set rrtype sets

-- An array whose last element was taken away is freed and NULL.
abbrev pub shrunk : {A : Type 0} → List A → Array A
shrunk [] = null
shrunk (x ∷ xs) = at (x ∷ xs)

module _ {Rr : Type 0} ⦃l : Ldns Rr⦄ where
  -- The loops that stop at the first item with the data of `rr`.
  abbrev pub find_item : Rr → List Rr → Option Rr
  find_item rr [] = none
  find_item rr (x ∷ xs) = if l.same_data rr x then some x else find_item rr xs

  abbrev pub has_item : Rr → Bool → List Rr → Bool
  has_item rr exact items = elim (find_item rr items) [
    | none ↦ false
    | some x ↦ if exact then l.ttl x == l.ttl rr else true
  ]

  abbrev pub in_set : Option Rr → Bool → Option (Itemset Rr) → Bool
  in_set rr exact none = false
  in_set none exact (some s) = is_nonempty (elements s.items)
  in_set (some rr) exact (some s) = has_item rr exact (elements s.items)

  -- `names_recordhasdata` of a record that is not NULL; `none` is the NULL for `rr`.
  unfoldable pub recordhasdata : Dictionary Rr → ℕ → Option Rr → Bool → Bool
  recordhasdata d recordtype rr exact =
      if recordtype == 0
      then is_nonempty (elements d.itemsets)
      else in_set rr exact (find_set recordtype (elements d.itemsets))

  -- The items of a set of `nitems` -1 stay as they are, since no index is -1.
  abbrev pub add_item : Rr → Array Rr → Array Rr
  add_item rr minus = minus
  add_item rr null = at (rr ∷ [])
  add_item rr (at items) = elim (find_item rr items) [
    | none ↦ at (items ++ rr ∷ [])
    | some _ ↦ at items
  ]

  abbrev pub add_to_sets : Rr → List (Itemset Rr) → List (Itemset Rr)
  add_to_sets rr [] = record { rrtype = l.type_of rr; items = at (rr ∷ []); signatures = null } ∷ []
  add_to_sets rr (s ∷ sets) =
      if l.type_of rr == s.rrtype
      then record s { items = add_item rr s.items } ∷ sets
      else s ∷ add_to_sets rr sets

  -- `rrset_add_rr`. `none` is the access to `itemsets[0]` through NULL, with `nitemsets` -1.
  unfoldable pub add_rr : Dictionary Rr → Rr → Option (Dictionary Rr)
  add_rr d rr = elim d.itemsets [
    | minus ↦ none
    | null ↦ some (record d { itemsets = at (add_to_sets rr []) })
    | at sets ↦ some (record d { itemsets = at (add_to_sets rr sets) })
  ]

  -- The item that `names_recorddeldata` takes away: the first for which ldns_rr_compare is not 0.
  abbrev pub without_item : Rr → List Rr → Option (List Rr)
  without_item rr [] = none
  without_item rr (x ∷ xs) =
      if l.same_data rr x
      then elim (without_item rr xs) [ none ↦ none | some rest ↦ some (x ∷ rest) ]
      else some xs

  abbrev pub delete_in : ℕ → Itemset Rr → List Rr → List (Itemset Rr) → List (Itemset Rr)
  delete_in rrtype s [] sets = remove_set rrtype sets
  delete_in rrtype s (x ∷ rest) sets = replace_set rrtype (record s { items = at (x ∷ rest) }) sets

  -- `names_recorddeldata`
  unfoldable pub recorddeldata : Dictionary Rr → ℕ → Rr → Dictionary Rr
  recorddeldata d rrtype rr = elim (find_set rrtype (elements d.itemsets)) [
    | none ↦ d
    | some s ↦ elim (without_item rr (elements s.items)) [
      | none ↦ d
      | some rest ↦ record d { itemsets = shrunk (delete_in rrtype s rest (elements d.itemsets)) }
    ]
  ]

  -- `names_recorddelall`. `none` is the second `free` of the items of the set, which the first one
  -- has freed; freeing NULL is allowed.
  unfoldable pub recorddelall : Dictionary Rr → ℕ → Option (Dictionary Rr)
  recorddelall d rrtype =
      if rrtype == 0
      then some (record d { itemsets = null })
      else elim (find_set rrtype (elements d.itemsets)) [
        | none ↦ some d
        | some s ↦ elim s.items [
          | at items ↦ none
          | _ ↦ some (record d { itemsets = shrunk (remove_set rrtype (elements d.itemsets)) })
        ]
      ]

-- `names_recordalltypes`, as the types that its iterator holds.
abbrev pub recordalltypes : {Rr : Type 0} → Dictionary Rr → List ℕ
recordalltypes d = map (λ s. s.rrtype) (elements d.itemsets)

-- The walk over them with a variable of type ldns_rr_type: `names_iterate` stores a pointer, of
-- eight bytes, into its four, so that the first type is a store beyond the variable.
abbrev pub walk_types : List ℕ → Option (List ℕ)
walk_types [] = some []
walk_types (t ∷ ts) = none

abbrev push_item {ℓ} : {A : Type ℓ} → Option A → Option (List A) → Option (List A)
push_item none rest = none
push_item (some x) none = none
push_item (some x) (some rest) = some (x ∷ rest)

-- The loop `for(j=0; j<itemsets[j].nitems; j++)` that adds item j of `items`, over the sets from
-- set j on. `none` is an access beyond the sets or beyond the items.
unfoldable pub values_from : {Rr : Type 0} → List Rr → List (Itemset Rr) → ℕ → Option (List Rr)
values_from items [] j = none
values_from items (s ∷ sets) j =
    let rest = values_from items sets (suc j) in
    if ltb j (length (elements s.items)) then push_item (get_elem? items j) rest else some []

-- `names_recordallvalues` as the items that its iterator holds; `some none` is the iterator NULL.
unfoldable pub recordallvalues : {Rr : Type 0} → Dictionary Rr → ℕ → Option (Option (List Rr))
unfolding values_from
recordallvalues d rrtype = elim (find_set rrtype (elements d.itemsets)) [
  | none ↦ some none
  | some s ↦ elim (values_from (elements s.items) (elements d.itemsets) 0) [
    | none ↦ none
    | some rrs ↦ some (some rrs)
  ]
]
