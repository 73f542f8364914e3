-- ===== src/Record/Keys.antt =====
-- `getset` of dictionary.c reading a field, and the acceptance functions that
-- `names_recordindexfunction` gives the indices.
use volans.Prelude.{ℕ, Bool, true, false, Option, none, some, List, [], ◌∷◌, ◌++◌, if◌then◌else◌}
use volans.Prelude.Int.{ℤ}
use volans.Text.{Sign, is_equal, is_greater, strcmp, decimal_ℤ}
use volans.Record.{Dictionary, is_set}

-- The names of fields and of indices that the source compares with strcmp.
pub data Keyname : Type 0 where
  name : Keyname
  revision : Keyname
  namerevision : Keyname
  validfrom : Keyname
  validupto : Keyname
  expiry : Keyname
  denialname : Keyname
  nameupcoming : Keyname
  namenoserial : Keyname
  namenewserial : Keyname
  nameready : Keyname
  validnow : Keyname
  namehierarchy : Keyname

infixl 5 ◌>>=◌
abbrev pub ◌>>=◌ {ℓ κ} : {A : Type ℓ} {B : Type κ} → Option A → (A → Option B) → Option B
none >>= f = none
some a >>= f = f a

abbrev int_text : Option ℤ → Option (List ℕ)
int_text none = none
int_text (some z) = some (decimal_ℤ z)

-- "%s %d"
abbrev spaced : Option (List ℕ) → ℤ → Option (Option (List ℕ))
spaced none z = none
spaced (some text) z = some (some (text ++ 32 ∷ decimal_ℤ z))

-- For the fields where NULL is read as an empty text.
abbrev pub text_or_empty : Option (List ℕ) → List ℕ
text_or_empty none = []
text_or_empty (some text) = text

abbrev pub is_text : Option (List ℕ) → Bool
is_text none = false
is_text (some _) = true

module _ {Rr : Type 0} where
  -- What `getset` puts in `*get`: the text of a field, or NULL. `none` is the call of abort, and %s
  -- of NULL.
  unfoldable pub getset : Dictionary Rr → Keyname → Option (Option (List ℕ))
  getset d name = some d.name
  getset d nameupcoming = some d.name
  getset d revision = some (some (decimal_ℤ d.revision))
  getset d namerevision = spaced d.name d.revision
  getset d validfrom = some (int_text d.validfrom)
  getset d validupto = some (int_text d.validupto)
  getset d expiry = some (int_text d.expiry)
  getset d denialname = some d.spanhash
  getset d namenoserial = none
  getset d namenewserial = none
  getset d nameready = none
  getset d validnow = none
  getset d namehierarchy = none

  -- What it returns: for a name whether it is NULL, and for the other fields whether it is not.
  unfoldable pub getset_rc : Dictionary Rr → Keyname → Option Bool
  getset_rc d name = some (if is_text d.name then false else true)
  getset_rc d nameupcoming = some (if is_text d.name then false else true)
  getset_rc d revision = some true
  getset_rc d namerevision = some true
  getset_rc d validfrom = some (is_set d.validfrom)
  getset_rc d validupto = some (is_set d.validupto)
  getset_rc d expiry = some (is_set d.expiry)
  getset_rc d denialname = some (is_text d.spanhash)
  getset_rc d namenoserial = none
  getset_rc d namenewserial = none
  getset_rc d nameready = none
  getset_rc d validnow = none
  getset_rc d namehierarchy = none

  -- strcmp of a field of two records; `none` is strcmp of NULL.
  abbrev pub compare_field : Keyname → Dictionary Rr → Dictionary Rr → Option Sign
  compare_field field a b = do
    left ← getset a field
    right ← getset b field
    left_text ← left
    right_text ← right
    some (strcmp left_text right_text)

  abbrev pub compare_or_empty : Keyname → Dictionary Rr → Dictionary Rr → Option Sign
  compare_or_empty field a b = do
    left ← getset a field
    right ← getset b field
    some (strcmp (text_or_empty left) (text_or_empty right))

-- The result of such a function, and what it stores through its pointer for the comparison, if
-- anything.
pub record Verdict : Type 0 where
  pub code : ℕ
  pub cmp : Option Sign

abbrev pub verdict : ℕ → Sign → Option Verdict
verdict code c = some (record { code = code; cmp = some c })

abbrev pub alone : ℕ → Option Verdict
alone code = some (record { code = code; cmp = none })

abbrev yes : Bool → ℕ
yes b = if b then 1 else 0

module _ {Rr : Type 0} where
  -- A record is newer than the one of its name in the index: the texts of the revisions decide.
  abbrev pub is_newer : Dictionary Rr → Dictionary Rr → Option Bool
  is_newer new cur = do c ← compare_field revision new cur; some (is_greater c)

  -- The rules for a record alone.
  abbrev pub is_ready : Dictionary Rr → Bool
  is_ready d =
      if is_set d.validupto
      then false
      else (if is_set d.validfrom then (if is_set d.expiry then false else true) else false)

  abbrev pub is_current : Dictionary Rr → Bool
  is_current d = if is_set d.validupto then false else is_set d.validfrom

  abbrev pub is_signed : Dictionary Rr → Bool
  is_signed d =
      if is_set d.validupto then false else (if is_set d.validfrom then is_set d.expiry else false)

  abbrev pub is_relevant : Dictionary Rr → Bool
  is_relevant d = if is_set d.validupto then false else true

  -- `comparenamerevision` and `comparenamehierarchy`. Wherever the source has a current record it
  -- has a place for the comparison too.
  unfoldable pub comparenamerevision : Dictionary Rr → Option (Dictionary Rr) → Option Verdict
  comparenamerevision new none = alone 1
  comparenamerevision new (some cur) = do c ← compare_field namerevision new cur; verdict 1 c

  unfoldable pub comparenamehierarchy : Dictionary Rr → Option (Dictionary Rr) → Option Verdict
  comparenamehierarchy new none = alone 1
  comparenamehierarchy new (some cur) = do c ← compare_field name cur new; verdict 1 c

  -- Beside a current record a NULL text has become an empty one before it is tested.
  unfoldable pub compareexpiry : Dictionary Rr → Option (Dictionary Rr) → Option Verdict
  compareexpiry new none = alone (yes (is_set new.expiry))
  compareexpiry new (some cur) = do c ← compare_or_empty expiry new cur; verdict 1 c

  unfoldable pub comparedenialname : Dictionary Rr → Option (Dictionary Rr) → Option Verdict
  comparedenialname new none = alone (yes (is_text new.spanhash))
  comparedenialname new (some cur) = do c ← compare_or_empty denialname new cur; verdict 1 c

  unfoldable pub compareupcomingset : Dictionary Rr → Option (Dictionary Rr) → Option Verdict
  compareupcomingset new none = alone 1
  compareupcomingset new (some cur) = do
    c ← compare_field name new cur
    newer ← is_newer new cur
    verdict (if is_equal c then yes newer else 1) c

  unfoldable pub compareincomingset : Dictionary Rr → Option (Dictionary Rr) → Option Verdict
  compareincomingset new none = alone (if is_set new.validfrom then 0 else 1)
  compareincomingset new (some cur) = do
    c ← compare_field name new cur
    newer ← is_newer new cur
    verdict
        (if is_set new.validfrom
          then (if is_equal c then 2 else 0)
          else (if is_equal c then yes newer else 1))
        c

  unfoldable pub compareready : Dictionary Rr → Option (Dictionary Rr) → Option Verdict
  compareready new none = alone (yes (is_ready new))
  compareready new (some cur) = do
    c ← compare_field name cur new
    newer ← is_newer new cur
    verdict (if is_equal c then (if newer then yes (is_ready new) else 0) else yes (is_ready new)) c

  unfoldable pub comparecurrentset : Dictionary Rr → Option (Dictionary Rr) → Option Verdict
  comparecurrentset new none = alone (yes (is_current new))
  comparecurrentset new (some cur) = do
    c ← compare_field name cur new
    verdict (yes (is_current new)) c

  unfoldable pub comparerelevantset : Dictionary Rr → Option (Dictionary Rr) → Option Verdict
  comparerelevantset new none = alone (yes (is_relevant new))
  comparerelevantset new (some cur) = do
    c ← compare_field name cur new
    newer ← is_newer new cur
    verdict
        (if is_equal c then (if newer then yes (is_relevant new) else 0) else yes (is_relevant new))
        c

  unfoldable pub comparesignedset : Dictionary Rr → Option (Dictionary Rr) → Option Verdict
  comparesignedset new none = alone (yes (is_signed new))
  comparesignedset new (some cur) = do
    c ← compare_field name cur new
    verdict (yes (is_signed new)) c

  -- `names_recordindexfunction`: the acceptance function of an index. `none` is the call of abort.
  unfoldable pub recordindexfunction :
      Keyname → Option (Dictionary Rr → Option (Dictionary Rr) → Option Verdict)
  recordindexfunction nameready = some compareready
  recordindexfunction namerevision = some comparenamerevision
  recordindexfunction nameupcoming = some compareupcomingset
  recordindexfunction namenoserial = some compareincomingset
  recordindexfunction namenewserial = some comparecurrentset
  recordindexfunction validnow = some comparesignedset
  recordindexfunction expiry = some compareexpiry
  recordindexfunction denialname = some comparedenialname
  recordindexfunction namehierarchy = some comparenamehierarchy
  recordindexfunction _ = none
