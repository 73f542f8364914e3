-- ===== src/Table/Laws.antt =====
-- What table.c relies on of the tree of ldns, its lookups after each operation, and the walk over
-- a table.
use volans.Prelude.{
  ℕ, zero, suc, ◌≡◌, ◌<◌, refl, ap, true, Option, none, some, List, [], ◌∷◌, map, arith,
  if◌then◌else◌, length,
}
use volans.Text.{is_equal, strcmp}
use volans.Text.Decimal.{strcmp_refl, strcmp_eq}
use volans.Index.Searches.{is_equal_lem}
use volans.Table.{
  Nodes, tableget, tabledel, tableput, tablestore, write, visited, iterateimpl, advanceimpl, visit,
}

-- What ldns documents of the tree: it is a map from the texts that strcmp tells apart.
pub record Maps {Data Tree : Type 0} (ns : Nodes Data Tree) : Type 0 where
  pub search-create : (j : List ℕ) → ns.search ns.create j ≡ none
  pub search-insert :
      (t : Tree) (k j : List ℕ)
      → ns.search t k ≡ none
      → ns.search (ns.insert t k) j ≡ (if is_equal (strcmp j k) then some none else ns.search t j)
  pub search-assign :
      (t : Tree) (k j : List ℕ) (o item : Option Data)
      → ns.search t k ≡ some o
      → ns.search (ns.assign t k item) j
        ≡ (if is_equal (strcmp j k) then some item else ns.search t j)
  pub search-delete :
      (t : Tree) (k j : List ℕ) (o : Option Data)
      → ns.search t k ≡ some o
      → ns.search (ns.delete t k) j ≡ (if is_equal (strcmp j k) then none else ns.search t j)

module _ {Data Tree : Type 0} (ns : Nodes Data Tree) (laws : Maps ns) where
  search-tablestore :
      (t : Tree) (k j : List ℕ) (d : Data) (o : Option (Option Data))
      → ns.search t k ≡ o
      → ns.search (tablestore ns t k d) j
        ≡ (if is_equal (strcmp j k) then some (some d) else ns.search t j)
  unfolding tablestore tableput
  search-tablestore t k j d none h = ground (
    arith,
    laws.search-insert t k k h,
    laws.search-insert t k j h,
    strcmp_refl k,
    laws.search-assign (ns.insert t k) k j none (some d),
  )
  search-tablestore t k j d (some o) h = ground (arith, h, laws.search-assign t k j o (some d) h)

  -- After data was written through the pointer that names_tableput returned for a name,
  -- names_tableget finds it under that name, and under any other name what it found before.
  pub tableget-tablestore :
      (t : Tree) (k j : List ℕ) (d : Data)
      → tableget ns (tablestore ns t k d) j
        ≡ (if is_equal (strcmp j k) then some d else tableget ns t j)
  unfolding tableget
  tableget-tablestore t k j d = ground (arith, search-tablestore t k j d (ns.search t k) refl)

  -- A second write through that pointer.
  pub tableget-write :
      (t : Tree) (k j : List ℕ) (d e : Data)
      → tableget ns (write ns (tablestore ns t k d) k e) j
        ≡ (if is_equal (strcmp j k) then some e else tableget ns t j)
  unfolding tableget
  tableget-write t k j d e = ground (
    arith,
    strcmp_refl k,
    search-tablestore t k k d (ns.search t k) refl,
    search-tablestore t k j d (ns.search t k) refl,
    laws.search-assign (tablestore ns t k d) k j (some d) (some e),
  )

  pub tableget-write_self :
      (t : Tree) (k : List ℕ) (d e : Data)
      → tableget ns (write ns (tablestore ns t k d) k e) k ≡ some e
  tableget-write_self t k d e = ground (arith, tableget-write t k k d e, strcmp_refl k)

  -- What `names_tableput` finds is what `names_tableget` finds.
  pub tableput-tableget : (t : Tree) (k : List ℕ) → (tableput ns t k).0 ≡ tableget ns t k
  unfolding tableput tableget
  tableput-tableget t k = ground arith

  same_key :
      (t : Tree) (j k : List ℕ) → is_equal (strcmp j k) ≡ true → ns.search t j ≡ ns.search t k
  same_key t j k h = ap (ns.search t) (strcmp_eq j k (is_equal_lem (strcmp j k) h))

  -- After `names_tabledel` the name is not found, and every other name is as before.
  pub tableget-tabledel :
      (t : Tree) (k j : List ℕ)
      → tableget ns (tabledel ns t k).1 j
        ≡ (if is_equal (strcmp j k) then none else tableget ns t j)
  unfolding tableget tabledel
  tableget-tabledel t k j = by_search (ns.search t k) refl
    where
      by_search :
          (o : Option (Option Data))
          → ns.search t k ≡ o
          → tableget ns (tabledel ns t k).1 j
            ≡ (if is_equal (strcmp j k) then none else tableget ns t j)
      by_search none h = ground (arith, h, same_key t j k)
      by_search (some o) h = ground (arith, h, laws.search-delete t k j o h)

module _ {Data : Type 0} where
  abbrev pub items_of : List (List ℕ × Option Data) → List (Option Data)
  items_of nodes = map (λ n. n.1) nodes

  visited_end : (fuel : ℕ) → 0 < fuel → visited {Data = Data} fuel none ≡ some ([], none)
  unfolding visited iterateimpl
  visited_end zero h = elim h [ ]
  visited_end (suc fuel) h = refl

  -- A walk over a change table ends, having visited the data of every node once and in order, and
  -- leaves the iterator freed and NULL. One round for each node and one more are enough.
  pub visited_lem :
      (fuel : ℕ) (nodes : List (List ℕ × Option Data))
      → length nodes < fuel
      → visited fuel (some nodes) ≡ some (items_of nodes, none)
  unfolding visited iterateimpl advanceimpl
  visited_lem zero nodes h = elim h [ ]
  visited_lem (suc fuel) [] h = refl
  visited_lem (suc fuel) ((key, item) ∷ []) h = ap (visit item) (visited_end fuel (omega arith))
  visited_lem (suc fuel) ((key, item) ∷ (key', item') ∷ rest) h =
      ap (visit item) (visited_lem fuel ((key', item') ∷ rest) (omega arith))
