-- ===== src/Zonesign/Tests.antt =====
-- Two records renewed and signed, and the key of a signature.
use volans.Prelude.{◌==◌, if◌then◌else◌, ℕ, ◌≡◌, refl, some, List, [], ◌∷◌, arith, All, length}
use volans.Prelude.Int.{pos}
use volans.Samples.{Sample, a_record, mx_record, sample_ldns}
use volans.Samples.Trees.{list_tree, list_tree-Walks, list_nodes, list_nodes-Maps}
use volans.Record.{Dictionary, Itemset, at}
use volans.Record.Data.{recordhasdata}
use volans.Views.Store.{View}
use volans.Views.Samples.{Log, input_view, no_hash, at_a}
use volans.Zonesign.{Dual, renew_pair, each}
use volans.Zonesign.Serials.{Later}
use volans.Zonesign.Prepare.{IsRenewed, renew_pairs_lem}
use volans.Zonesign.Keydata.{key_data, key_data_size, rfc3110, rfc3110-key_data}

abbrev set_of : Sample → Itemset Sample
set_of rr = record { rrtype = rr.kind; items = at (rr ∷ []); signatures = at [] }

abbrev with_data : Dictionary Sample
with_data = record at_a { itemsets = at (set_of (a_record 2) ∷ set_of (mx_record 3) ∷ []) }

abbrev zone_view : View Sample (List ℕ) Log
zone_view = record (input_view []) { heap = λ a. with_data }

abbrev order : List ℕ → List ℕ
order t = t

abbrev one_pair : List Dual
one_pair = record { src = some 0; dst = 1 } ∷ []

renew_pairs_lem_example :
    (v' : View Sample (List ℕ) Log) × (each list_tree list_nodes no_hash order
        (renew_pair list_tree list_nodes no_hash order (pos 7))
        one_pair
        zone_view
      ≡ some (tt, v'))
    × Later list_nodes (pos 7) zone_view v'
    × All (IsRenewed list_tree list_tree-Walks list_nodes list_nodes-Maps no_hash order v') one_pair
unfolding recordhasdata
renew_pairs_lem_example =
    renew_pairs_lem list_tree list_tree-Walks list_nodes list_nodes-Maps no_hash order one_pair
      zone_view (pos 7) (λ a e. cc e) ((refl, refl), tt)

rfc3110-key_data_example :
    (bytes : List ℕ) × (key_data (1 ∷ 0 ∷ 1 ∷ []) (9 ∷ 9 ∷ []) ≡ some bytes)
    × (length bytes ≡ key_data_size (1 ∷ 0 ∷ 1 ∷ []) (9 ∷ 9 ∷ []))
    × (rfc3110 bytes ≡ some (1 ∷ 0 ∷ 1 ∷ [], 9 ∷ 9 ∷ []))
rfc3110-key_data_example =
    rfc3110-key_data (1 ∷ 0 ∷ 1 ∷ []) (9 ∷ 9 ∷ []) (omega arith) (omega arith)

-- A record without sets, and one with two.
abbrev signed_view : View Sample (List ℕ) Log
signed_view = record (input_view []) { heap = λ a. if a == 0 then at_a else with_data }
