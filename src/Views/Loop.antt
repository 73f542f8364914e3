-- ===== src/Views/Loop.antt =====
-- `updateview` of views.c over the commit log: a view catches up with the change logs of the others,
-- and then commits its own.
use volans.Prelude.{ℕ, zero, suc, Bool, true, false, Option, none, some, List, if◌then◌else◌}
use volans.Commitlog.{Commitlog, poppush, ◌>>=◌}
use volans.Index.{Rbtree}
use volans.Table.{Nodes}
use volans.Views.Changes.{Change}
use volans.Views.Store.{View}
use volans.Views.Apply.{apply_table, commit_own}

-- What a call leaves: the view; the flag `conflict`; the variable `changelog`; the table of
-- `*mychangelog`, with `none` for `mychangelog` NULL; and the commit log.
pub record Updated (Rr Tree Log : Type 0) : Type 0 where
  pub view : View Rr Tree Log
  pub conflict : Bool
  pub changelog : Option ℕ
  pub mychangelog : Option ℕ
  pub log : Commitlog

-- `tables` are the changes in the table at an address.
module _ {Rr Tree Log : Type 0} (rb : Rbtree Tree) (ns : Nodes Change Log)
    (dname_hash : List ℕ → Option (List ℕ) → Option (List ℕ))
    (tables : ℕ → List (Option Change)) where
  -- The loop, for `fuel` rounds at most. A hit resets the view's own changes and drops them from
  -- the commit, as `mychangelog` is NULL then.
  unfoldable pub update_loop :
      ℕ
      → Commitlog
      → ℕ
      → Option ℕ
      → Option ℕ
      → Bool
      → View Rr Tree Log
      → Option (Updated Rr Tree Log)
  update_loop zero c viewid changelog mychangelog conflict v = none
  update_loop (suc fuel) c viewid changelog mychangelog conflict v = do
    (popped, p) ← poppush c viewid changelog mychangelog
    if popped
        then (do
          x ← p.previouslog
          (conflict', v') ← apply_table rb ns dname_hash (tables x) conflict v
          update_loop fuel p.log viewid (some x) (if conflict' then none else p.submitlog) conflict'
              v')
        else some (record {
          view = v;
          conflict = conflict;
          changelog = p.previouslog;
          mychangelog = p.submitlog;
          log = p.log;
        })

  -- Behind the loop: the records of the own change log, which was the view's table, are inserted,
  -- and it is popped.
  abbrev pub committed : ℕ → Updated Rr Tree Log → Option (Updated Rr Tree Log)
  committed viewid u = do
    own ← u.changelog
    (done, v') ← commit_own rb ns dname_hash true u.view
    (popped, p) ← poppush u.log viewid (some own) u.mychangelog
    some (record {
      view = v';
      conflict = u.conflict;
      changelog = p.previouslog;
      mychangelog = p.submitlog;
      log = p.log;
    })

  abbrev pub finished : ℕ → Updated Rr Tree Log → Bool → Option ℕ → Option (Updated Rr Tree Log)
  finished viewid u true mychangelog = some u
  finished viewid u false none = some u
  finished viewid u false (some _) = committed viewid u

  -- `updateview` and, with the address of the view's own table, `names_viewcommit`.
  unfoldable pub updateview :
      ℕ → Commitlog → ℕ → Option ℕ → View Rr Tree Log → Option (Updated Rr Tree Log)
  updateview fuel c viewid mychangelog v = do
    u ← update_loop fuel c viewid none mychangelog false v
    finished viewid u u.conflict u.mychangelog
