-- ===== src/Zoneoutput/Writing.antt =====
-- Which zones `writezone` writes.
use volans.Prelude.{Bool, true, false, List, [], ◌∷◌, if◌then◌else◌}
use volans.Record.{elements, Dictionary}
use volans.Record.Data.{is_nonempty}

-- Some record of the zone has an item set.
abbrev pub any_set : {Rr : Type 0} → List (Dictionary Rr) → Bool
any_set [] = false
any_set (d ∷ ds) = if is_nonempty (elements d.itemsets) then true else any_set ds
