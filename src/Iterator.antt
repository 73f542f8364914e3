-- ===== src/Iterator.antt =====
-- iteratorgeneric.c, and iterator.c as it is used on it: an array that grows, and a walk over it.
pub mod Walk
mod Tests
use volans.Prelude.{
  ℕ, zero, suc, ◌+◌, ◌*◌, Bool, true, false, Option, none, some, List, [], ◌∷◌, ◌++◌, length, ltb,
  get_elem?, ◌==◌, if◌then◌else◌,
}

-- `items` holds the `itemcnt` elements that are set of the `itemmax` that are allocated. An element
-- is a pointer, or a copy of a structure if `itemsiz` is not 0.
pub record Iterator (A : Type 0) : Type 0 where
  pub items : List A
  pub itemmax : ℕ
  pub itemidx : ℕ

module _ {A : Type 0} where
  -- `names_iterator_create`
  unfoldable pub iterator_create : Iterator A
  iterator_create = record { items = []; itemmax = 20; itemidx = 0 }

  abbrev stored_at : Iterator A → ℕ → A → Option (Iterator A)
  stored_at it itemmax x =
      if ltb (length it.items) itemmax
      then some (record it { items = it.items ++ x ∷ []; itemmax = itemmax })
      else none

  -- `names_iterator_add`; `none` is a write beyond the array.
  unfoldable pub iterator_add : Iterator A → A → Option (Iterator A)
  iterator_add it x =
      stored_at it (if length it.items == it.itemmax then it.itemmax * 2 else it.itemmax) x

  -- `names_iterator_addall` of an array that is not of negative size.
  abbrev all_stored : Iterator A → ℕ → List A → Option (Iterator A)
  all_stored it itemmax [] = some (record it { itemmax = itemmax })
  all_stored it itemmax (x ∷ xs) = elim (stored_at it itemmax x) [
    | none ↦ none
    | some it' ↦ all_stored it' itemmax xs
  ]

  unfoldable pub iterator_addall : Iterator A → List A → Option (Iterator A)
  iterator_addall it xs = all_stored it (length it.items + length xs) xs

  -- `names_iterate` and `names_advance`: the item, with `none` for the end, and the iterator, with
  -- `none` for NULL after it was freed.
  abbrev pub here : Iterator A → Option A × Option (Iterator A)
  here it = elim (get_elem? it.items it.itemidx) [
    | none ↦ (none, none)
    | some x ↦ (some x, some it)
  ]

  unfoldable pub iterate : Option (Iterator A) → Option A × Option (Iterator A)
  iterate none = (none, none)
  iterate (some it) = here it

  unfoldable pub advance : Option (Iterator A) → Option A × Option (Iterator A)
  advance none = (none, none)
  advance (some it) = here (record it { itemidx = suc it.itemidx })

  -- `names_end`: the iterator is freed and NULL.
  unfoldable pub iterator_end : Option (Iterator A) → Option (Iterator A)
  iterator_end it = none

  -- `for(; names_iterate(&iter, &item); names_advance(&iter, NULL))`: the items that its body sees,
  -- and the iterator that is left, for `fuel` rounds at most; `none` is no end by then.
  abbrev pub seen :
      A → Option (List A × Option (Iterator A)) → Option (List A × Option (Iterator A))
  seen x none = none
  seen x (some (xs, it)) = some (x ∷ xs, it)

  unfoldable pub walk : ℕ → Option (Iterator A) → Option (List A × Option (Iterator A))
  walk zero it = none
  walk (suc fuel) it = elim (iterate it).0 [
    | none ↦ some ([], (iterate it).1)
    | some x ↦ seen x (walk fuel (advance (iterate it).1).1)
  ]

  -- A sequence of additions.
  abbrev pub adds : Iterator A → List A → Option (Iterator A)
  adds it [] = some it
  adds it (x ∷ xs) = elim (iterator_add it x) [ none ↦ none | some it' ↦ adds it' xs ]
