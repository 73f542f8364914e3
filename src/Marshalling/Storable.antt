-- ===== src/Marshalling/Storable.antt =====
-- The records that a file can hold, and what reading leaves of them.
use volans.Prelude.{◌<◌, ◌^◌, Option, none, some, map, All, length}
use volans.Prelude.Int.{ℤ}
use volans.Record.{Array, minus, null, at, elements, Itemsig, Itemset, Dictionary}
use volans.Marshalling.Integer.{IsInt, IsText, IsTextOrNull}

-- What reading leaves of an array.
abbrev pub restored_array : {A B : Type 0} → (A → B) → Array A → Array B
restored_array g minus = minus
restored_array g null = minus
restored_array g (at xs) = at (map g xs)

abbrev pub Fits : {A : Type 0} → (A → Type 0) → Array A → Type 0
Fits P a = All P (elements a) × (length (elements a) < 2 ^ 31)

abbrev pub IsIntOrNull : Option ℤ → Type 0
IsIntOrNull none = Unit
IsIntOrNull (some z) = IsInt z

module _ {Rr : Type 0} where
  -- What a file can hold: every text, number and count is in the range of its field.
  abbrev pub IsStorableSig : Itemsig Rr → Type 0
  IsStorableSig s = IsText s.keylocator × IsInt s.keyflags

  abbrev pub IsStorableSet : Itemset Rr → Type 0
  IsStorableSet s = (s.rrtype < 2 ^ 16) × (length (elements s.items) < 2 ^ 31)

  pub record IsStorable (d : Dictionary Rr) : Type 0 where
    pub name : IsTextOrNull d.name
    pub revision : IsInt d.revision
    pub marker : IsInt d.marker
    pub spanhash : IsTextOrNull d.spanhash
    pub spansignatures : Fits IsStorableSig d.spansignatures
    pub validupto : IsIntOrNull d.validupto
    pub validfrom : IsIntOrNull d.validfrom
    pub expiry : IsIntOrNull d.expiry
    pub itemsets : Fits IsStorableSet d.itemsets

  -- The signatures are not stored.
  abbrev pub restored_itemset : Array (Itemsig Rr) → Itemset Rr → Itemset Rr
  restored_itemset junk s = record {
    rrtype = s.rrtype;
    items = restored_array (λ rr. rr) s.items;
    signatures = junk;
  }

  -- What reading leaves of a record.
  abbrev pub restored : Array (Itemsig Rr) → Dictionary Rr → Dictionary Rr
  restored junk d = record d {
    spansignatures = restored_array (λ s. s) d.spansignatures;
    itemsets = restored_array (restored_itemset junk) d.itemsets;
  }
