-- ===== src/Marshalling/Tests.antt =====
-- Files of sample records, on which the theorems about them are tried.
use volans.Prelude.{◌≡◌, none, some, [], ◌∷◌, ◌++◌, arith}
use volans.Prelude.Int.{pos, negsuc}
use volans.Samples.{Sample, sample_ldns, sample-Prints, a_record, mx_record}
use volans.Record.{null, at, Itemsig, Dictionary, recordcreate}
use volans.Record.Data.{add_rr}
use volans.Marshalling.Layout.{write_record, read_record, write_records, read_records}
use volans.Marshalling.Storable.{IsStorable, restored}
use volans.Marshalling.Dump.{read_records-write_records, add_rr_after_restore}

abbrev signature : Itemsig Sample
signature = record { rr = mx_record 3; keylocator = 107 ∷ []; keyflags = pos 257 }

-- A record with an address, a signature and a validity.
abbrev signed : Dictionary Sample
signed = record {
  name = some (97 ∷ []);
  revision = pos 4;
  marker = pos 1;
  spanhash = none;
  spansignatures = at (signature ∷ []);
  validupto = some (pos 9);
  validfrom = none;
  expiry = some (negsuc 0);
  itemsets = at (record { rrtype = 1; items = at (a_record 7 ∷ []); signatures = null } ∷ []);
}

signed-IsStorable : IsStorable signed
signed-IsStorable = record {
  name = ((omega arith, tt), omega arith);
  revision = omega arith;
  marker = omega arith;
  spanhash = tt;
  spansignatures = (((((omega arith, tt), omega arith), omega arith), tt), omega arith);
  validupto = omega arith;
  validfrom = tt;
  expiry = omega arith;
  itemsets = (((omega arith, omega arith), tt), omega arith);
}

read_records-write_records_example :
    read_records 3 null (write_records (signed ∷ signed ∷ []) ++ 5 ∷ [])
    ≡ some (restored null signed ∷ restored null signed ∷ [], 5 ∷ [])
read_records-write_records_example =
    read_records-write_records sample-Prints null signed (signed ∷ []) 3 (5 ∷ [])
      (signed-IsStorable, (signed-IsStorable, tt)) (omega arith)

add_rr_after_restore_example :
    (d : Dictionary Sample) × (read_record null
        (write_record {Rr = Sample} (some (recordcreate (some (97 ∷ [])))) ++ [])
      ≡ some (some d, []))
    × (add_rr d (a_record 7) ≡ none)
add_rr_after_restore_example =
    add_rr_after_restore sample-Prints null (97 ∷ []) [] (a_record 7)
      ((omega arith, tt), omega arith)
