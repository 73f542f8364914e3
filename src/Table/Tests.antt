-- ===== src/Table/Tests.antt =====
-- The results on table.c tried on a list in place of the tree.
use volans.Prelude.{ℕ, ◌≡◌, refl, Option, none, some, List, [], ◌∷◌, arith}
use volans.Samples.Trees.{list_nodes, list_nodes-Maps}
use volans.Table.{tableget, tablestore, tableconcat, visited}
use volans.Table.Laws.{tableget-tablestore, visited_lem}

abbrev one_entry : List (List ℕ × Option ℕ)
one_entry = (97 ∷ [], some 3) ∷ []

tableget-tablestore_example :
    tableget list_nodes (tablestore list_nodes one_entry (98 ∷ []) 4) (97 ∷ []) ≡ some 3
unfolding tableget
tableget-tablestore_example =
    tableget-tablestore list_nodes list_nodes-Maps one_entry (98 ∷ []) (97 ∷ []) 4

visited_lem_example :
    visited {Data = ℕ} 3 (some ((97 ∷ [], some 3) ∷ (98 ∷ [], some 4) ∷ []))
    ≡ some (some 3 ∷ some 4 ∷ [], none)
visited_lem_example = visited_lem 3 ((97 ∷ [], some 3) ∷ (98 ∷ [], some 4) ∷ []) (omega arith)

concat_two : tableconcat (1 ∷ 2 ∷ []) (3, none) ≡ some (1 ∷ 2 ∷ 3 ∷ [])
unfolding tableconcat
concat_two = refl
