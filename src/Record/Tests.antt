-- ===== src/Record/Tests.antt =====
-- Records of the sample type, on which the theorems about records are tried.
use mathlib.Core.Option
use volans.Prelude.{
  ℕ, ◌≡◌, refl, true, false, ◌||◌, none, some, List, [], ◌∷◌, arith, if◌then◌else◌,
}
use volans.Prelude.Int.{pos}
use volans.Text.{equal, decimal}
use volans.Record.Keys.{nameready, getset, recordindexfunction, compareready}
use volans.Record.Ordering.{order, recordindexfunction-order}
use volans.Samples.{Sample, sample_ldns, sample-Compares, a_record, mx_record}
use volans.Record.{elements, null, at, Itemset, Dictionary, recordcreate}
use volans.Record.Data.{find_set, recordhasdata, add_rr, recorddeldata, recorddelall}
use volans.Record.WellFormed.{IsWellFormed, add_rr-IsWellFormed, recordhasdata-add_rr}
use volans.Record.Deletion.{recorddeldata_lem, recorddelall_cases}

abbrev new_record : Dictionary Sample
new_record = recordcreate (some (97 ∷ []))

abbrev set_of : ℕ → List Sample → Itemset Sample
set_of t items = record { rrtype = t; items = at items; signatures = null }

-- Two addresses and a mail exchange.
abbrev one_set : Dictionary Sample
one_set = record new_record { itemsets = at (set_of 1 (a_record 7 ∷ []) ∷ []) }

one_set-IsWellFormed : IsWellFormed sample-Compares one_set
one_set-IsWellFormed = record {
  counted = λ e. cc e;
  sets = ((refl, (refl, tt), (refl, tt)), tt);
  types = (tt, tt);
}

add_rr-IsWellFormed_example :
    (d' : Dictionary Sample) × (add_rr one_set (mx_record 7) ≡ some d')
    × IsWellFormed sample-Compares d'
add_rr-IsWellFormed_example =
    add_rr-IsWellFormed sample-Compares one_set (mx_record 7) one_set-IsWellFormed

abbrev one_and_mail : Dictionary Sample
one_and_mail = record one_set {
  itemsets = at (set_of 1 (a_record 7 ∷ []) ∷ set_of 15 (mx_record 7 ∷ []) ∷ []);
}

recordhasdata-add_rr_example :
    recordhasdata one_and_mail 15 (some (mx_record 7)) false
    ≡ (recordhasdata one_set 15 (some (mx_record 7)) false || true)
unfolding add_rr
recordhasdata-add_rr_example =
    recordhasdata-add_rr sample-Compares one_set one_and_mail (mx_record 7) (mx_record 7) 15
      one_set-IsWellFormed refl (omega arith)

-- Three addresses of which the first is to be deleted.
abbrev addresses : Dictionary Sample
addresses = record new_record {
  itemsets = at (set_of 1 (a_record 7 ∷ a_record 8 ∷ a_record 9 ∷ []) ∷ []);
}

recorddeldata_lem_example :
    (recordhasdata (recorddeldata addresses 1 (a_record 7)) 1 (some (a_record 7)) false ≡ true)
    × (find_set 1 (elements (recorddeldata addresses 1 (a_record 7)).itemsets)
        ≡ some (set_of 1 (a_record 7 ∷ a_record 9 ∷ [])))
unfolding recordhasdata
recorddeldata_lem_example =
    recorddeldata_lem addresses 1 (a_record 7) (a_record 8)
      (set_of 1 (a_record 7 ∷ a_record 8 ∷ a_record 9 ∷ [])) (a_record 7 ∷ []) (a_record 9 ∷ [])
      (omega arith) refl refl (refl, tt) refl refl

recorddelall_cases_example :
    (Option.map (λ d'. recordhasdata d' 1 none false) (recorddelall one_set 0) ≡ some false)
    × (recorddelall one_set 1 ≡ (if recordhasdata one_set 1 none false then none else some one_set))
recorddelall_cases_example =
    recorddelall_cases sample-Compares one_set 1 1 none false one_set-IsWellFormed (omega arith)

abbrev in_revision : ℕ → Dictionary Sample
in_revision n = record new_record { revision = pos n }

recordindexfunction-order_example :
    some equal ≡ some (order nameready (in_revision 2) (in_revision 1))
unfolding recordindexfunction compareready getset recordcreate decimal
recordindexfunction-order_example =
    recordindexfunction-order nameready compareready (in_revision 2) (in_revision 1)
      (record { code = 0; cmp = some equal }) refl refl
