-- ===== src/Views/Apply.antt =====
-- `resetchangelog` of views.c, and what `updateview` does with each change of a table: those of
-- another view, and the view's own at the commit.
use volans.Prelude.{
  ℕ, Bool, true, false, ◌||◌, ◌&&◌, not, Option, none, some, List, [], ◌∷◌, ◌++◌, map,
}
use volans.Record.{Dictionary, recordsetmarker}
use volans.Index.{Rbtree, Index, indexinsert}
use volans.Table.{Nodes, tableget}
use volans.Views.Changes.{Change}
use volans.Views.Store.{
  View, Run, ◌>>=◌, ◌>>◌, return, recordgetid, record_at, assign_at, insert_first, remove_first,
}

abbrev pub is_some {ℓ} : {A : Type ℓ} → Option A → Bool
is_some none = false
is_some (some _) = true

-- Whether a hit is the first one.
abbrev pub first_hit : Bool → Bool → Bool
first_hit hit true = false
first_hit hit false = hit

module _ {Rr Tree : Type 0} (rb : Rbtree Tree) where
  -- The loop over `indices[1]` and those behind it.
  unfoldable pub insert_each :
      (ℕ → Dictionary Rr) → ℕ → List (Index Rr Tree) → Option (List (Index Rr Tree))
  insert_each heap r [] = some []
  insert_each heap r (ix ∷ rest) = elim (indexinsert rb heap ix r) [
    | none ↦ none
    | some (rc, ix') ↦ elim (insert_each heap r rest) [
      | none ↦ none
      | some rest' ↦ some (ix' ∷ rest')
    ]
  ]

module _ {Rr Tree Log : Type 0} (rb : Rbtree Tree) (ns : Nodes Change Log)
    (dname_hash : List ℕ → Option (List ℕ) → Option (List ℕ)) where
  abbrev pub insert_others : ℕ → Run (View Rr Tree Log) (Unit {0})
  insert_others r v = elim (insert_each rb v.heap r v.others) [
    | none ↦ none
    | some others ↦ some (tt, record v { others = others })
  ]

  -- A record is inserted into every index of the view.
  unfoldable pub insert_all : ℕ → Run (View Rr Tree Log) (Unit {0})
  unfolding insert_each
  insert_all r = do _ ← insert_first rb ns dname_hash r; insert_others r

  abbrev pub remove_new : Option ℕ → Run (View Rr Tree Log) (Unit {0})
  remove_new none = return tt
  remove_new (some r) = do _ ← remove_first rb ns dname_hash r; return tt

  abbrev pub insert_old : Option ℕ → Run (View Rr Tree Log) (Unit {0})
  insert_old none = return tt
  insert_old (some r) = do _ ← insert_first rb ns dname_hash r; return tt

  abbrev pub reset_change : Option Change → Run (View Rr Tree Log) (Unit {0})
  reset_change none v = none
  reset_change (some ch) v = (do remove_new ch.newrecord; insert_old ch.oldrecord) v

  abbrev pub reset_changes : List (Option Change) → Run (View Rr Tree Log) (Unit {0})
  reset_changes [] v = some (tt, v)
  reset_changes (ch ∷ rest) v = (do reset_change ch; reset_changes rest) v

  -- `resetchangelog`
  unfoldable pub resetchangelog : Run (View Rr Tree Log) (Unit {0})
  resetchangelog v =
      (do
        reset_changes (map (λ n. n.1) (ns.nodes v.changelog))
        λ v'. some (tt, record v' { changelog = ns.create }))
        v

  -- The body of the loop over the changes of another view; the flag is `conflict`. `none` is the id
  -- of the record NULL too.
  abbrev pub reset_if : Bool → Run (View Rr Tree Log) (Unit {0})
  unfolding resetchangelog
  reset_if true = resetchangelog
  reset_if false = return tt

  abbrev pub is_hit : View Rr Tree Log → Option (List ℕ) → Option Bool
  is_hit v none = none
  is_hit v (some id) = some (is_some (tableget ns v.changelog id))

  unfoldable pub apply_record : ℕ → Bool → Run (View Rr Tree Log) Bool
  unfolding resetchangelog insert_all
  apply_record r conflict v = elim (is_hit v (recordgetid (v.heap r))) [
    | none ↦ none
    | some hit ↦ (do reset_if (first_hit hit conflict); insert_all r; return (conflict || hit)) v
  ]

  unfoldable pub apply_change : Option Change → Bool → Run (View Rr Tree Log) Bool
  unfolding apply_record
  apply_change none conflict v = none
  apply_change (some ch) conflict v = elim ch.newrecord [
    | none ↦ none
    | some r ↦ apply_record r conflict v
  ]

  unfoldable pub apply_table : List (Option Change) → Bool → Run (View Rr Tree Log) Bool
  unfolding apply_change
  apply_table [] conflict v = some (conflict, v)
  apply_table (ch ∷ rest) conflict v =
      (do conflict' ← apply_change ch conflict; apply_table rest conflict') v

  -- The body of the loop over the own changes: the change that is left in the table.
  abbrev pub marked_old : Option ℕ → Run (View Rr Tree Log) ℕ
  marked_old none v = none
  marked_old (some r) v =
      (do
        d ← record_at rb ns dname_hash r
        assign_at rb ns dname_hash r (recordsetmarker d)
        return r)
        v

  abbrev pub commit_record : Change → Option ℕ → Run (View Rr Tree Log) Change
  unfolding insert_all
  commit_record ch (some r) = do insert_all r; return ch
  commit_record ch none = do
    r ← marked_old ch.oldrecord
    insert_all r
    return (record { newrecord = some r; oldrecord = none })

  unfoldable pub commit_change : Change → Run (View Rr Tree Log) Change
  unfolding commit_record
  commit_change ch = commit_record ch ch.newrecord

  -- All changes of the own table.
  abbrev pub commit_changes : List (Option Change) → Run (View Rr Tree Log) (List (Option Change))
  unfolding commit_change
  commit_changes [] v = some ([], v)
  commit_changes (none ∷ rest) v = none
  commit_changes (some ch ∷ rest) v =
      (do ch' ← commit_change ch; rest' ← commit_changes rest; return (some ch' ∷ rest')) v

  -- The `while` loop, over all tables that are pending.
  abbrev pub apply_tables : List (List (Option Change)) → Bool → Run (View Rr Tree Log) Bool
  unfolding apply_table
  apply_tables [] conflict v = some (conflict, record v { pending = [] })
  apply_tables (t ∷ ts) conflict v =
      (do conflict' ← apply_table t conflict; apply_tables ts conflict') v

  -- The own table is submitted before the loop over its changes, and behind it the new table, which
  -- is empty.
  abbrev pub commit_own : Bool → Run (View Rr Tree Log) (Unit {0})
  unfolding commit_changes
  commit_own false v = some (tt, v)
  commit_own true v =
      (do
        changes ← commit_changes (map (λ n. n.1) (ns.nodes v.changelog))
        λ v'. some (
          tt,
          record v' { changelog = ns.create; submitted = v'.submitted ++ changes ∷ [] ∷ [] },
        ))
        v

  -- `updateview` on the records: the flag is whether the own table is to be committed, and the
  -- result is `conflict`.
  unfoldable pub update_records : Bool → Run (View Rr Tree Log) Bool
  unfolding apply_tables commit_own
  update_records commit v =
      (do
        conflict ← apply_tables v.pending false
        commit_own (commit && not conflict)
        return conflict)
        v

  -- `names_viewcommit` and `names_viewreset`
  unfoldable pub viewcommit : Run (View Rr Tree Log) Bool
  unfolding update_records
  viewcommit v = update_records true v

  unfoldable pub viewreset : Run (View Rr Tree Log) (Unit {0})
  unfolding resetchangelog update_records
  viewreset v = (do resetchangelog; _ ← update_records false; return tt) v
