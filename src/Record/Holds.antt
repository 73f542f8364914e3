-- ===== src/Record/Holds.antt =====
-- What `names_recordhasdata` finds after `rrset_add_rr`.
use volans.Prelude.{
  ℕ, ◌≡◌, ◌≢◌, refl, Bool, true, false, ◌&&◌, ◌||◌, some, List, [], ◌∷◌, ◌++◌, arith, ◌==◌, All,
}
use volans.Ldns.{Ldns, Compares}
use volans.Record.{Array, minus, null, at, elements, Itemset}
use volans.Record.Data.{find_set, has_item, in_set, add_item, add_to_sets}

module _ {Rr : Type 0} ⦃l : Ldns Rr⦄ (laws : Compares l) where
  -- Whether a list of items has one with the data of `x`.
  abbrev pub holds : Rr → List Rr → Bool
  holds x [] = false
  holds x (y ∷ ys) = l.same_data x y || holds x ys

  pub has_item-holds : (x : Rr) (ys : List Rr) → has_item x false ys ≡ holds x ys
  has_item-holds x [] = refl
  has_item-holds x (y ∷ ys) = ground (arith, has_item-holds x ys)

  pub holds-append :
      (x rr : Rr) (ys : List Rr) → holds x (ys ++ rr ∷ []) ≡ (holds x ys || l.same_data x rr)
  holds-append x rr [] = ground arith
  holds-append x rr (y ∷ ys) = ground (arith, holds-append x rr ys)

  -- An item with the data of one that is held is held.
  holds_same :
      (x y : Rr) (ys : List Rr) → l.same_data x y ≡ true → holds y ys ≡ true → holds x ys ≡ true
  holds_same x y [] s h = cc
  holds_same x y (z ∷ zs) s h = ground (arith, laws.same_trans x y z, holds_same x y zs)

  holds-add :
      (x rr : Rr) (items : Array Rr)
      → items ≢ minus
      → holds x (elements (add_item rr items)) ≡ (holds x (elements items) || l.same_data x rr)
  holds-add x rr minus h = absurd (h refl)
  holds-add x rr null h = ground arith
  holds-add x rr (at ys) h =
      ground (arith, holds-append x rr ys, has_item-holds rr ys, holds_same x rr ys)

  -- What `names_recordhasdata` looks up in the sets.
  abbrev pub looks : Rr → ℕ → List (Itemset Rr) → Bool
  looks x t sets = in_set (some x) false (find_set t sets)

  pub looks-add :
      (x rr : Rr) (t : ℕ) (sets : List (Itemset Rr))
      → All (λ s. s.items ≢ minus) sets
      → looks x t (add_to_sets rr sets)
        ≡ (looks x t sets || (t == l.type_of rr && l.same_data x rr))
  looks-add x rr t [] h = ground arith
  looks-add x rr t (s ∷ sets) h = ground (
    arith,
    looks-add x rr t sets h.1,
    has_item-holds x (elements s.items),
    has_item-holds x (elements (add_item rr s.items)),
    holds-add x rr s.items h.0,
  )
