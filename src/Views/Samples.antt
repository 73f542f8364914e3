-- ===== src/Views/Samples.antt =====
-- A view with lists in place of its trees, on which the results about views are tried.
use volans.Prelude.{ℕ, refl, Option, none, some, List, [], ◌∷◌}
use volans.Samples.{Sample}
use volans.Prelude.Int.{pos}
use volans.Record.{Dictionary, null}
use volans.Record.Keys.{nameupcoming, namehierarchy, compareupcomingset, comparenamehierarchy}
use volans.Views.Changes.{Change}
use volans.Views.Store.{View}
use volans.Views.Usable.{IsUsable, compareupcomingset-IsDecided, comparenamehierarchy-IsDecided}
use volans.Views.Calls.{IsInput}
use volans.Views.Detection.{IsServing}

-- The record a, of revision 1.
abbrev pub at_a : Dictionary Sample
at_a = record {
  name = some (97 ∷ []);
  revision = pos 1;
  marker = pos 0;
  spanhash = some [];
  spansignatures = null;
  validupto = none;
  validfrom = none;
  expiry = none;
  itemsets = null;
}

abbrev pub id_of_a : List ℕ
id_of_a = 97 ∷ 32 ∷ 49 ∷ []

abbrev pub Log : Type 0
Log = List (List ℕ × Option Change)

abbrev pub input_view : Log → View Sample (List ℕ) Log
input_view log = record {
  heap = λ a. at_a;
  fresh = 1;
  apex = some (46 ∷ []);
  index = record { keyname = nameupcoming; tree = 0 ∷ []; acceptfunc = compareupcomingset };
  others =
      record { keyname = namehierarchy; tree = 0 ∷ []; acceptfunc = comparenamehierarchy } ∷ [];
  changelog = log;
  pending = [];
  submitted = [];
}

abbrev pub no_hash : List ℕ → Option (List ℕ) → Option (List ℕ)
no_hash name apex = some name

pub at_a-IsUsable : IsUsable at_a
at_a-IsUsable = record { named = λ e. cc e; hashed = λ e. cc e; counted = λ e. cc e }

pub input_view-IsInput : (log : Log) → IsInput (input_view log)
input_view-IsInput log = record {
  usable = λ a. at_a-IsUsable;
  keyed = refl;
  decided = compareupcomingset-IsDecided;
}

pub input_view-IsServing : (log : Log) → IsServing (input_view log)
input_view-IsServing log = record {
  keyed = refl;
  served = record {
    usable = λ a. at_a-IsUsable;
    first = compareupcomingset-IsDecided;
    rest = (comparenamehierarchy-IsDecided, tt);
  };
}
