-- ===== src/Views/Tests.antt =====
-- Two views on the sample commit log, one of which commits.
use volans.Prelude.{ℕ, ◌≡◌, refl, false, Option, none, some, List, [], ◌∷◌, arith}
use volans.Commitlog.{Commitlog}
use volans.Commitlog.Queues.{Queued}
use volans.Commitlog.Samples.{two_views, one_log, one_log-Queued}
use volans.Samples.{Sample}
use volans.Samples.Trees.{list_tree, list_nodes}
use volans.Views.Changes.{Change}
use volans.Views.Store.{View, recordgetid}
use volans.Views.Apply.{apply_table, apply_record, insert_all, insert_each, commit_change}
use volans.Views.Samples.{Log, input_view, no_hash}
use volans.Index.{indexinsert}
use volans.Text.{decimal}
use volans.Table.{tableget}
use volans.Record.{recordhasmarker}
use volans.Record.Keys.{getset, compareupcomingset, comparenamehierarchy}
use volans.Views.Loop.{updateview}
use volans.Views.Commit.{updateview_commit}

-- Every table of another view changes the record a.
abbrev of_a : ℕ → List (Option Change)
of_a x = some (record { newrecord = some 0; oldrecord = none }) ∷ []

-- The own table has a change of the record a, under another id or under its id.
abbrev own : List ℕ → View Sample (List ℕ) Log
own id = input_view ((id, some (record { newrecord = some 0; oldrecord = none })) ∷ [])

abbrev committed_view : View Sample (List ℕ) Log
committed_view = record (own (98 ∷ [])) { changelog = []; submitted = of_a 0 ∷ [] ∷ [] }

-- The first view has yet to see table 0, and commits.
updateview_commit_example :
    (c' : Commitlog) × (n : ℕ) × (m : ℕ) × (updateview list_tree list_nodes no_hash of_a 2 one_log 0
        (some two_views.fresh)
        (own (98 ∷ []))
      ≡ some (record {
        view = committed_view;
        conflict = false;
        changelog = some n;
        mychangelog = some m;
        log = c';
      }))
    × Queued c' ((n ∷ []) ∷ (0 ∷ two_views.fresh ∷ n ∷ []) ∷ []) (some m)
unfolding apply_table apply_record insert_all insert_each recordgetid recordhasmarker indexinsert
    decimal tableget commit_change getset compareupcomingset comparenamehierarchy
updateview_commit_example =
    updateview_commit list_tree list_nodes no_hash of_a one_log ((0 ∷ []) ∷ (0 ∷ []) ∷ []) 0 2
      two_views.fresh (0 ∷ []) (own (98 ∷ [])) (own (98 ∷ [])) committed_view one_log-Queued refl
      (omega arith) refl refl
