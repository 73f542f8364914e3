-- ===== src/Zoneinput/Tests.antt =====
-- A zone file of an origin and one record, read as a delta.
use volans.Prelude.{ℕ, ◌≡◌, none, some, List, [], ◌∷◌, ◌++◌}
use volans.Text.{codes}
use volans.Samples.{Sample, a_record, sample_ldns}
use volans.Samples.Trees.{list_tree, list_tree-Walks, list_nodes, list_nodes-Maps}
use volans.Views.Store.{View}
use volans.Views.Samples.{Log, input_view, input_view-IsServing, no_hash, at_a}
use volans.Views.Detection.{IsServing}
use volans.Zoneinput.{Line, resource, syntax_origin, syntax_empty, deltaplus, readzone}
use volans.Zoneinput.Reading.{readzone_lem}

abbrev zone_file : List (Line Sample)
zone_file = syntax_origin (codes "example.") ∷ resource (a_record 1) ∷ syntax_empty ∷ []

abbrev owner_a : Sample → List ℕ
owner_a rr = 97 ∷ []

abbrev ident_of : List ℕ → ℕ → Sample → List ℕ
ident_of name type rr = name ++ 32 ∷ type ∷ 32 ∷ rr.value ∷ []

readzone_lem_example :
    (v' : View Sample (List ℕ) Log) × (readzone list_tree list_nodes no_hash owner_a ident_of
        deltaplus zone_file none
        (at_a ∷ [])
        (input_view [])
      ≡ some (some (codes "example."), v'))
    × IsServing v'
    × (v'.apex ≡ some (46 ∷ []))
readzone_lem_example =
    readzone_lem list_tree list_tree-Walks list_nodes list_nodes-Maps no_hash owner_a ident_of
      deltaplus zone_file none (at_a ∷ []) (input_view [])
      ((λ e. cc e), ((λ e. cc e), ((λ e. cc e), tt))) (λ e. cc e) (λ n e. cc e)
      (input_view-IsServing [])
