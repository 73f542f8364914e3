-- ===== src/Record.antt =====
-- dictionary.h and the record operations of dictionary.c: the records of a zone, one for each name.
pub mod Data
pub mod Holds
pub mod WellFormed
pub mod Deletion
pub mod Values
pub mod Keys
pub mod Ordering
pub mod Signatures
mod Tests
use volans.Prelude.{ℕ, zero, suc, ◌+◌, Bool, true, false, Option, none, some, List, [], map}
use volans.Prelude.Int.{ℤ, pos, negsuc, ◌+ℤ◌}

-- An array of the source is a count and a pointer. `minus` is the count -1 with the pointer NULL,
-- which reading a record back leaves where NULL was written; `null` is the count 0 with NULL; `at`
-- holds as many elements as the count says behind a pointer that is not NULL.
pub data Array (A : Type 0) : Type 0 where
  minus : Array A
  null : Array A
  at : List A → Array A

abbrev pub elements : {A : Type 0} → Array A → List A
elements minus = []
elements null = []
elements (at l) = l

pub record Itemsig (Rr : Type 0) : Type 0 where
  pub rr : Rr
  pub keylocator : List ℕ
  pub keyflags : ℤ

-- The count `nsignatures` and the array go together in `signatures`, and so for `items`.
pub record Itemset (Rr : Type 0) : Type 0 where
  pub rrtype : ℕ
  pub items : Array Rr
  pub signatures : Array (Itemsig Rr)

-- `struct dictionary_struct`. Text is the bytes before its NUL, and `none` is NULL. The fields tmp*
-- only hold the text that `getset` returned last, and `spanhashrr` is never set on this path.
pub record Dictionary (Rr : Type 0) : Type 0 where
  pub name : Option (List ℕ)
  pub revision : ℤ
  pub marker : ℤ
  pub spanhash : Option (List ℕ)
  pub spansignatures : Array (Itemsig Rr)
  pub validupto : Option ℤ
  pub validfrom : Option ℤ
  pub expiry : Option ℤ
  pub itemsets : Array (Itemset Rr)

abbrev pub is_set : Option ℤ → Bool
is_set none = false
is_set (some _) = true

abbrev pub is_nonzero : ℤ → Bool
is_nonzero (pos zero) = false
is_nonzero _ = true

module _ {Rr : Type 0} where
  -- `names_recordcreate`
  unfoldable pub recordcreate : Option (List ℕ) → Dictionary Rr
  recordcreate name = record {
    name = name;
    revision = pos 1;
    marker = pos 0;
    spanhash = none;
    spansignatures = null;
    validupto = none;
    validfrom = none;
    expiry = none;
    itemsets = null;
  }

  -- `names_recordsetmarker` and `names_recordhasmarker`
  unfoldable pub recordsetmarker : Dictionary Rr → Dictionary Rr
  recordsetmarker d = record d { marker = pos 1 }

  unfoldable pub recordhasmarker : Dictionary Rr → Bool
  recordhasmarker d = is_nonzero d.marker

  -- A field that is set once: `none` is the failed assertion that it is NULL.
  abbrev pub once : Option ℤ → Dictionary Rr → Option (Dictionary Rr)
  once none d = some d
  once (some _) d = none

  -- `names_recordhasvalidupto`, `names_recordsetvalidupto` and so on.
  unfoldable pub recordhasvalidupto : Dictionary Rr → Bool
  recordhasvalidupto d = is_set d.validupto

  unfoldable pub recordhasvalidfrom : Dictionary Rr → Bool
  recordhasvalidfrom d = is_set d.validfrom

  unfoldable pub recordhasexpiry : Dictionary Rr → Bool
  recordhasexpiry d = is_set d.expiry

  unfoldable pub recordsetvalidupto : Dictionary Rr → ℤ → Option (Dictionary Rr)
  recordsetvalidupto d value = once d.validupto (record d { validupto = some value })

  unfoldable pub recordsetvalidfrom : Dictionary Rr → ℤ → Option (Dictionary Rr)
  recordsetvalidfrom d value = once d.validfrom (record d { validfrom = some value })

  unfoldable pub recordsetexpiry : Dictionary Rr → ℤ → Option (Dictionary Rr)
  recordsetexpiry d value = once d.expiry (record d { expiry = some value })

-- The clones that `names_recordcopy` makes: `malloc` of no bytes is a pointer that is not NULL,
-- and that of -1 elements is NULL.
abbrev pub copy_array : {A B : Type 0} → (A → B) → Array A → Array B
copy_array f minus = minus
copy_array f null = at []
copy_array f (at l) = at (map f l)

module _ {Rr : Type 0} where
  abbrev pub copy_itemset : Itemset Rr → Itemset Rr
  copy_itemset s = record {
    rrtype = s.rrtype;
    items = copy_array (λ rr. rr) s.items;
    signatures = null;
  }

  -- `names_recordcopy`. `none` is `strdup` of a NULL span hash.
  unfoldable pub recordcopy : Dictionary Rr → Option (Dictionary Rr)
  recordcopy d = elim d.spanhash [
    | none ↦ none
    | some hash ↦ some (record {
      name = d.name;
      revision = d.revision +ℤ pos 1;
      marker = pos 0;
      spanhash = some hash;
      spansignatures = null;
      validupto = none;
      validfrom = none;
      expiry = none;
      itemsets = copy_array copy_itemset d.itemsets;
    })
  ]
