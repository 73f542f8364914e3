-- ===== src/Views/Detection/Tests.antt =====
-- A change of the record a met by a view that has placed it.
use volans.Prelude.{ℕ, ◌≡◌, refl, true, false, Option, none, some, List, [], ◌∷◌}
use volans.Samples.{Sample}
use volans.Samples.Trees.{list_tree, list_tree-Walks, list_nodes, list_nodes-Maps}
use volans.Text.{decimal}
use volans.Table.{tableget}
use volans.Views.Changes.{Change}
use volans.Views.Store.{View, recordgetid}
use volans.Views.Apply.{apply_table}
use volans.Views.Samples.{Log, input_view, input_view-IsServing, no_hash, id_of_a}
use volans.Views.Detection.{apply_table-any_entry, any_entry}

abbrev placed_a : Log
placed_a = (id_of_a, some (record { newrecord = none; oldrecord = none })) ∷ []

abbrev changes_a : List (Option Change)
changes_a = some (record { newrecord = some 0; oldrecord = none }) ∷ []

is_conflict : any_entry list_nodes (input_view placed_a).heap placed_a changes_a ≡ true
unfolding recordgetid tableget decimal
is_conflict = refl

apply_table-any_entry_example :
    (v' : View Sample (List ℕ) Log) × (apply_table list_tree list_nodes no_hash changes_a false
        (input_view placed_a)
      ≡ some (any_entry list_nodes (input_view placed_a).heap placed_a changes_a, v'))
apply_table-any_entry_example =
    apply_table-any_entry list_tree list_tree-Walks list_nodes list_nodes-Maps no_hash changes_a
      (input_view placed_a) ((record { newrecord = some 0; oldrecord = none }, 0, refl, refl), tt)
      ((λ e. cc e), tt) (input_view-IsServing placed_a)
