-- ===== src/Views/Store.antt =====
-- A view of views.c with its records: `names_own`, `names_amend`, `names_place`, `names_take` and
-- `names_remove`, and `changed`, by which they note a change in the table `changelog`.
use volans.Prelude.{
  ℕ, ◌+◌, ◌≡◌, ap, Bool, true, false, Option, none, some, List, ◌==◌, if◌then◌else◌,
}
use volans.Record.{Dictionary, recordcreate, recordcopy}
use volans.Record.Keys.{namerevision, getset}
use volans.Index.{Rbtree, Index, indexinsert, indexremove, indexlookupkey}
use volans.Table.{Nodes, tableput, write}
use volans.Views.Changes.{Change, ChangeType, change_add, change_del, change_mod, changed}

-- `heap` holds the records at their addresses, and `fresh` is the next address that is allocated.
-- `index` is `indices[0]` and `others` are the rest. `pending` are the change tables of the commit
-- log that the view has yet to see, the first one first, and `submitted` those that it has pushed.
pub record View (Rr Tree Log : Type 0) : Type 0 where
  pub heap : ℕ → Dictionary Rr
  pub fresh : ℕ
  pub apex : Option (List ℕ)
  pub index : Index Rr Tree
  pub others : List (Index Rr Tree)
  pub changelog : Log
  pub pending : List (List (Option Change))
  pub submitted : List (List (Option Change))

-- A call that leaves a view; `none` is a failed assertion, a call of abort or an access by NULL.
abbrev pub Run : Type 0 → Type 0 → Type 0
Run View A = View → Option (A × View)

infixl 5 ◌>>=◌ ◌>>◌
abbrev pub ◌>>=◌ : {View A B : Type 0} → Run View A → (A → Run View B) → Run View B
◌>>=◌ m f v = elim (m v) [ none ↦ none | some (a, v') ↦ f a v' ]

abbrev pub ◌>>◌ : {View B : Type 0} → Run View (Unit {0}) → Run View B → Run View B
◌>>◌ m k v = elim (m v) [ none ↦ none | some (a, v') ↦ k v' ]

-- A step that goes through is followed by the rest.
pub >>=-some :
    {View A B : Type 0} (m : Run View A) (f : A → Run View B) (v : View) {a : A} {v' : View}
    → m v ≡ some (a, v')
    → (m >>= f) v ≡ f a v'
>>=-some m f v e = ap (λ o. elim o [ none ↦ none | some (a, v') ↦ f a v' ]) e

pub >>-some :
    {View B : Type 0} (m : Run View (Unit {0})) (k : Run View B) (v : View) {v' : View}
    → m v ≡ some (tt, v')
    → (m >> k) v ≡ k v'
>>-some m k v e = ap (λ o. elim o [ none ↦ none | some (_, v') ↦ k v' ]) e

abbrev pub return : {View A : Type 0} → A → Run View A
return a v = some (a, v)

abbrev pub replaced_at : {A : Type 0} → (ℕ → A) → ℕ → A → ℕ → A
replaced_at heap a d j = if j == a then d else heap j

-- `names_recordgetid(record, NULL)`; `none` is %s of a NULL name.
abbrev pub text_of_id : Option (Option (List ℕ)) → Option (List ℕ)
text_of_id none = none
text_of_id (some o) = o

unfoldable pub recordgetid : {Rr : Type 0} → Dictionary Rr → Option (List ℕ)
unfolding getset
recordgetid d = text_of_id (getset d namerevision)

module _ {Rr Tree Log : Type 0} (rb : Rbtree Tree) (ns : Nodes Change Log)
    (dname_hash : List ℕ → Option (List ℕ) → Option (List ℕ)) where
  -- The records in memory.
  abbrev pub record_at : ℕ → Run (View Rr Tree Log) (Dictionary Rr)
  record_at a v = some (v.heap a, v)

  abbrev pub assign_at : ℕ → Dictionary Rr → Run (View Rr Tree Log) (Unit {0})
  assign_at a d v = some (tt, record v { heap = replaced_at v.heap a d })

  abbrev pub allocate : Dictionary Rr → Run (View Rr Tree Log) ℕ
  allocate d v =
      some (v.fresh, record v { heap = replaced_at v.heap v.fresh d; fresh = v.fresh + 1 })

  abbrev pub required : {A : Type 0} → Option A → Run (View Rr Tree Log) A
  required none v = none
  required (some a) v = some (a, v)

  -- `changed` for a record with that id: the entry that the table had, and what it is then.
  unfoldable pub noted_at :
      ℕ → ChangeType → Bool → Option (List ℕ) → Run (View Rr Tree Log) (Option Change × Change)
  unfolding tableput
  noted_at r type target none v = none
  noted_at r type target (some id) v =
      let (entry, log) = tableput ns v.changelog id in
      let change = changed entry r type target in
      some ((entry, change), record v { changelog = write ns log id change })

  unfoldable pub note_changed :
      ℕ → ChangeType → Bool → Run (View Rr Tree Log) (Option Change × Change)
  unfolding noted_at recordgetid
  note_changed r type target v = noted_at r type target (recordgetid (v.heap r)) v

  -- The calls of index.c on `indices[0]`.
  abbrev pub insert_first : ℕ → Run (View Rr Tree Log) ℕ
  insert_first r v = elim (indexinsert rb v.heap v.index r) [
    | none ↦ none
    | some (rc, ix) ↦ some (rc, record v { index = ix })
  ]

  abbrev pub remove_first : ℕ → Run (View Rr Tree Log) ℕ
  remove_first r v = elim (indexremove rb v.heap v.fresh v.index r) [
    | none ↦ none
    | some (rc, ix) ↦ some (rc, record v { index = ix })
  ]

  abbrev pub lookup_first : List ℕ → Run (View Rr Tree Log) (Option ℕ)
  lookup_first name v = elim (indexlookupkey rb v.heap v.fresh v.index name) [
    | none ↦ none
    | some found ↦ some (found, v)
  ]

  -- The write to `change->record` through the target.
  abbrev pub retarget : Option (List ℕ) → Change → ℕ → Run (View Rr Tree Log) (Unit {0})
  retarget none change r' v = none
  retarget (some id) change r' v =
      some (
        tt,
        record v { changelog = write ns v.changelog id (record change { newrecord = some r' }) },
      )

  abbrev pub copied : ℕ → Change → Run (View Rr Tree Log) ℕ
  copied r change = do
    _ ← remove_first r
    old ← record_at r
    copy ← required (recordcopy old)
    r' ← allocate copy
    retarget (recordgetid old) change r'
    _ ← insert_first r'
    return r'

  abbrev pub owned : ℕ → Change → Option ℕ → Run (View Rr Tree Log) ℕ
  owned r change (some r') = return r'
  owned r change none = copied r change

  -- `names_own`: the record that the caller goes on with.
  unfoldable pub own_record : ℕ → Run (View Rr Tree Log) ℕ
  unfolding note_changed
  own_record r = do (_, change) ← note_changed r change_mod true; owned r change change.newrecord

  -- `names_amend`
  unfoldable pub amend_record : ℕ → Run (View Rr Tree Log) (Unit {0})
  unfolding note_changed
  amend_record r = do _ ← note_changed r change_mod false; return tt

  abbrev pub annotated : Option (List ℕ) → Dictionary Rr → List ℕ → Dictionary Rr
  annotated apex d name = record d { spanhash = dname_hash name apex }

  abbrev pub placed : List ℕ → Option ℕ → Run (View Rr Tree Log) ℕ
  placed name (some r) = return r
  placed name none = do
    r ← (λ v. allocate (annotated v.apex (recordcreate (some name)) name) v)
    _ ← insert_first r
    _ ← note_changed r change_add false
    return r

  -- `names_place`
  unfoldable pub place_record : List ℕ → Run (View Rr Tree Log) ℕ
  unfolding note_changed recordcreate
  place_record name = do found ← lookup_first name; placed name found

  -- `names_take` with the index 0.
  unfoldable pub take_record : List ℕ → Run (View Rr Tree Log) (Option ℕ)
  take_record name = lookup_first name

  -- `names_remove`
  unfoldable pub remove_record : ℕ → Run (View Rr Tree Log) (Unit {0})
  unfolding note_changed
  remove_record r = do _ ← remove_first r; _ ← note_changed r change_del false; return tt
