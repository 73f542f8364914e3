-- ===== src/Zoneoutput/Tests.antt =====
-- A zone of one name with two sets.
use volans.Prelude.{ℕ, some, List, [], ◌∷◌}
use volans.Text.{codes}
use volans.Record.{Dictionary, Itemset, at, null, recordcreate}
use volans.Samples.{Sample, a_record, mx_record}

abbrev set_with : Sample → Itemset Sample
set_with rr = record { rrtype = rr.kind; items = at (rr ∷ []); signatures = null }

abbrev two_sets : Dictionary Sample
two_sets = record (recordcreate (some (codes "a"))) {
  itemsets = at (set_with (a_record 1) ∷ set_with (mx_record 2) ∷ []);
}

abbrev line_of : Sample → List ℕ
line_of rr = rr.kind ∷ rr.value ∷ 10 ∷ []
