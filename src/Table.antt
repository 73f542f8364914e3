-- ===== src/Table.antt =====
-- table.c: a change table maps texts to data, in a red-black tree whose keys strcmp compares.
pub mod Laws
mod Tests
use volans.Prelude.{ℕ, zero, suc, Bool, true, false, Option, none, some, List, [], ◌∷◌}

-- What table.c uses of the red-black tree of ldns. A node has a text as its key, and its data is
-- NULL (`none`) or not. `search` is ldns_rbtree_search and `insert` ldns_rbtree_insert of a node
-- with data NULL; `assign` writes the data of the node with that key, `delete` is
-- ldns_rbtree_delete, and `nodes` are the nodes from ldns_rbtree_first on by ldns_rbtree_next.
pub record Nodes (Data Tree : Type 0) : Type 0 where
  pub create : Tree
  pub search : Tree → List ℕ → Option (Option Data)
  pub insert : Tree → List ℕ → Tree
  pub assign : Tree → List ℕ → Option Data → Tree
  pub delete : Tree → List ℕ → Tree
  pub nodes : Tree → List (List ℕ × Option Data)

module _ {Data Tree : Type 0} (ns : Nodes Data Tree) where
  -- `names_tableget`: a node with data NULL is as no node.
  unfoldable pub tableget : Tree → List ℕ → Option Data
  tableget t name = elim (ns.search t name) [ none ↦ none | some item ↦ item ]

  -- `names_tabledel`
  unfoldable pub tabledel : Tree → List ℕ → Bool × Tree
  tabledel t name = elim (ns.search t name) [
    | none ↦ (false, t)
    | some item ↦ (true, ns.delete t name)
  ]

  -- `names_tableput`: the data that the returned pointer points to, and the table.
  unfoldable pub tableput : Tree → List ℕ → Option Data × Tree
  tableput t name = elim (ns.search t name) [
    | none ↦ (none, ns.insert t name)
    | some item ↦ (item, t)
  ]

  -- A write through the pointer that `names_tableput` returned for a name.
  abbrev pub write : Tree → List ℕ → Data → Tree
  write t name d = ns.assign t name (some d)

  unfoldable pub tablestore : Tree → List ℕ → Data → Tree
  unfolding tableput
  tablestore t name d = write (tableput t name).1 name d

-- An iterator over a table: its `current` is the nodes from there on, and `none` is the iterator
-- NULL, after it was freed.
abbrev pub Cursor : Type 0 → Type 0
Cursor Data = Option (List (List ℕ × Option Data))

module _ {Data Tree : Type 0} (ns : Nodes Data Tree) where
  -- `names_tableitems`
  unfoldable pub tableitems : Tree → Cursor Data
  tableitems t = some (ns.nodes t)

module _ {Data : Type 0} where
  -- The result, `*item` and the iterator, where the last is freed at the end.
  abbrev pub at_node : List (List ℕ × Option Data) → Bool × Option Data × Cursor Data
  at_node [] = (false, none, none)
  at_node ((key, item) ∷ rest) = (true, item, some ((key, item) ∷ rest))

  -- `iterateimpl`
  unfoldable pub iterateimpl : Cursor Data → Bool × Option Data × Cursor Data
  iterateimpl none = (false, none, none)
  iterateimpl (some nodes) = at_node nodes

  -- `advanceimpl`
  unfoldable pub advanceimpl : Cursor Data → Bool × Option Data × Cursor Data
  advanceimpl none = (false, none, none)
  advanceimpl (some []) = (false, none, none)
  advanceimpl (some (_ ∷ rest)) = at_node rest

  -- `endimpl`
  unfoldable pub endimpl : Cursor Data → Cursor Data
  endimpl iter = none

  -- `for(iter=…; names_iterate(&iter, &item); names_advance(&iter, NULL))`, with what it visits and
  -- the iterator it leaves; `none` is that the fuel ran out.
  abbrev pub visit :
      Option Data
      → Option (List (Option Data) × Cursor Data)
      → Option (List (Option Data) × Cursor Data)
  visit item none = none
  visit item (some (items, iter)) = some (item ∷ items, iter)

  unfoldable pub visited : ℕ → Cursor Data → Option (List (Option Data) × Cursor Data)
  unfolding iterateimpl advanceimpl
  visited zero iter = none
  visited (suc fuel) iter =
      let (more, item, at) = iterateimpl iter in
      let (_, _, next) = advanceimpl at in
      elim more [ true ↦ visit item (visited fuel next) | false ↦ some ([], at) ]

-- `names_tableconcat` on a list of tables, each known by its address and its field `next`: `none` is
-- the failed assertion that the item has no next table.
unfoldable pub tableconcat : List ℕ → ℕ × Option ℕ → Option (List ℕ)
tableconcat tables (item, some _) = none
tableconcat [] (item, none) = some (item ∷ [])
tableconcat (t ∷ ts) (item, none) = elim (tableconcat ts (item, none)) [
  | none ↦ none
  | some rest ↦ some (t ∷ rest)
]
