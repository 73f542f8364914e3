-- ===== src/Views/Conflicts/Tests.antt =====
-- Two input views that both change the record a.
use volans.Prelude.{ℕ, ◌≡◌, refl, false, none, some, List, [], ◌∷◌, arith}
use volans.Text.{decimal, is_equal, strcmp}
use volans.Samples.{Sample}
use volans.Samples.Trees.{list_tree, list_tree-Walks, list_nodes, list_nodes-Maps}
use volans.Record.{recordcreate}
use volans.Table.{tableget}
use volans.Views.Changes.{Change}
use volans.Views.Store.{View, own_record}
use volans.Views.Usable.{compareupcomingset-IsDecided, comparenamehierarchy-IsDecided}
use volans.Views.Apply.{apply_change}
use volans.Views.Samples.{Log, input_view, input_view-IsInput, no_hash, id_of_a}
use volans.Views.Conflicts.{apply_change-own_record}

abbrev own_entry : Log
own_entry = (id_of_a, some (record { newrecord = some 5; oldrecord = some 0 })) ∷ []

only_own :
    (j : List ℕ) → is_equal (strcmp j id_of_a) ≡ false → tableget list_nodes own_entry j ≡ none
unfolding tableget
only_own j h = ground (arith, h)

apply_change-own_record_example :
    (r' : ℕ) × (v' w' : View Sample (List ℕ) Log) × (mine : Change) × (own_record list_tree
        list_nodes no_hash 0
        (input_view [])
      ≡ some (r', v'))
    × (tableget list_nodes v'.changelog id_of_a ≡ some mine)
    × (mine.newrecord ≡ some r')
    × (apply_change list_tree list_nodes no_hash
          (some mine)
          false
          (record (input_view own_entry) { heap = v'.heap })
        ≡ some (false, w'))
unfolding recordcreate decimal tableget
apply_change-own_record_example =
    apply_change-own_record list_tree list_tree-Walks list_nodes list_nodes-Maps no_hash
      (input_view []) (input_view own_entry) 0 1 (97 ∷ [])
      (record { newrecord = some 5; oldrecord = some 0 }) (input_view-IsInput []) refl refl
      (omega arith) refl refl only_own compareupcomingset-IsDecided
      (comparenamehierarchy-IsDecided, tt)
