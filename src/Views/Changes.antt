-- ===== src/Views/Changes.antt =====
-- `changed` of views.c: what it notes of one record in the own change log.
use volans.Prelude.{ℕ, Bool, Option, none, some, if◌then◌else◌}

-- `struct names_change_struct`, with `newrecord` for its field `record`. Records are known by their addresses.
pub record Change : Type 0 where
  pub newrecord : Option ℕ
  pub oldrecord : Option ℕ

pub data ChangeType : Type 0 where
  change_add : ChangeType
  change_del : ChangeType
  change_mod : ChangeType

-- `changed`, where the table has no entry for the name of the record, and where it has one. The
-- flag is whether the caller passes a target, which is then the place of `change->record`.
abbrev first_change : ℕ → ChangeType → Bool → Change
first_change r change_add target = record { newrecord = none; oldrecord = none }
first_change r change_del target = record { newrecord = none; oldrecord = some r }
first_change r change_mod target = record {
  newrecord = if target then none else some r;
  oldrecord = some r;
}

abbrev next_change : Change → ℕ → ChangeType → Change
next_change ch r change_add = record ch { newrecord = some r }
next_change ch r change_del = record ch { newrecord = none }
next_change ch r change_mod = record ch { newrecord = some r }

unfoldable pub changed : Option Change → ℕ → ChangeType → Bool → Change
changed none r type target = first_change r type target
changed (some ch) r type target = next_change ch r type
