-- ===== src/Httpd.antt =====
-- httpd.c: the requests that change a zone, from the pieces of a body to the answer.
pub mod Connection
pub mod Changes
pub mod Listener
mod Tests
use volans.Prelude.{
  ℕ, Bool, true, false, Option, none, some, List, [], ◌∷◌, ◌++◌, if◌then◌else◌, ◌+◌,
}
use volans.Text.{Sign, codes, is_equal, strcmp}
use volans.Ldns.{Ldns}
use volans.Record.{Dictionary, recordcreate}
use volans.Record.Data.{recorddelall, add_rr}
use volans.Index.{Rbtree, Index, order_at}
use volans.Index.Range.{indexrange}
use volans.Table.{Nodes}
use volans.Views.Changes.{Change}
use volans.Views.Store.{
  View, Run, ◌>>=◌, ◌>>◌, return, replaced_at, record_at, assign_at, required, own_record,
  place_record, take_record,
}
use volans.Views.Apply.{viewreset, viewcommit}
use volans.Rpc.{
  Rpc, Opcode, rpc_change_delegation, rpc_change_name, Status, rpc_ok, rpc_err,
  rpc_resource_not_found, rpc_encode_json,
}

module _ {Rr Tree Log : Type 0} ⦃l : Ldns Rr⦄ (rb : Rbtree Tree) (ns : Nodes Change Log)
    (dname_hash : List ℕ → Option (List ℕ) → Option (List ℕ)) (owner : Rr → List ℕ)
    (less_equal : (ℕ → ℕ → Sign) → Tree → ℕ → List ℕ) where
  -- A function on the record at an address.
  abbrev pub modify :
      (Dictionary Rr → Option (Dictionary Rr)) → ℕ → Run (View Rr Tree Log) (Unit {0})
  modify f r = do
    d ← record_at rb ns dname_hash r
    d' ← required rb ns dname_hash (f d)
    assign_at rb ns dname_hash r d'

  -- `deleterecordsets`: the status after it. `owner` is the text of the owner name.
  abbrev pub delete_taken :
      Option ℕ → Rr → Run (View Rr Tree Log) Status → Run (View Rr Tree Log) Status
  delete_taken none rr rest = do viewreset rb ns dname_hash; return rpc_err
  delete_taken (some r) rr rest = do modify (λ d. recorddelall d (l.type_of rr)) r; rest

  unfoldable pub deleterecordsets : List Rr → Status → Run (View Rr Tree Log) Status
  deleterecordsets [] status v = some (status, v)
  deleterecordsets (rr ∷ rrs) status v =
      (do
        found ← take_record rb ns dname_hash (owner rr)
        delete_taken found rr (deleterecordsets rrs status))
        v

  -- `names_viewiterate(view, "allbelow", name)`: the records that the loop goes over.
  abbrev pub range_of : List (Index Rr Tree) → List ℕ → Run (View Rr Tree Log) (List ℕ)
  range_of [] name v = none
  range_of (ix ∷ _) name v =
      let d = record (recordcreate none) { name = some name } in
      let heap = replaced_at v.heap v.fresh d in
      elim (indexrange v.heap name (less_equal (order_at rb heap ix) ix.tree v.fresh)) [
        | none ↦ none
        | some rs ↦ some (rs, v)
      ]

  abbrev pub delete_owned : List ℕ → Run (View Rr Tree Log) (Unit {0})
  delete_owned [] v = some (tt, v)
  delete_owned (r ∷ rs) v =
      (do r' ← own_record rb ns dname_hash r; modify (λ d. recorddelall d 0) r'; delete_owned rs) v

  -- `deletedelegation`
  unfoldable pub deletedelegation : List ℕ → Run (View Rr Tree Log) (Unit {0})
  unfolding recordcreate
  deletedelegation name v = (do rs ← range_of v.others name; delete_owned rs) v

  -- `insertrecords`: the status after it. Places and clones do not fail.
  abbrev pub insert_rr : Rr → Run (View Rr Tree Log) (Unit {0})
  insert_rr rr = do
    placed ← place_record rb ns dname_hash (owner rr)
    r ← own_record rb ns dname_hash placed
    modify (λ d. add_rr d rr) r

  unfoldable pub insertrecords : List Rr → Run (View Rr Tree Log) Status
  insertrecords [] v = some (rpc_ok, v)
  insertrecords (rr ∷ rrs) v = (do insert_rr rr; insertrecords rrs) v

  -- `dispatch`, on the input view of the zone: the status that the request is left with.
  abbrev pub dispatch_to : Opcode → Rpc Rr → Run (View Rr Tree Log) Status
  unfolding deletedelegation deleterecordsets insertrecords viewcommit
  dispatch_to rpc_change_delegation rpc = do
    deletedelegation rpc.delegation_point
    status ← insertrecords rpc.rr
    _ ← viewcommit rb ns dname_hash
    return status
  dispatch_to rpc_change_name rpc = do
    _ ← deleterecordsets rpc.rr rpc.status
    status ← insertrecords rpc.rr
    _ ← viewcommit rb ns dname_hash
    return status

  unfoldable pub dispatch : Rpc Rr → Run (View Rr Tree Log) Status
  unfolding dispatch_to viewreset
  dispatch rpc = do viewreset rb ns dname_hash; dispatch_to rpc.opc rpc

-- The status code of an answer: 200, 404 or 500.
abbrev pub code_of : Status → ℕ
code_of rpc_ok = 200
code_of rpc_resource_not_found = 404
code_of rpc_err = 500

-- The answer of the server.
pub record Answer : Type 0 where
  pub http_code : ℕ
  pub body : List ℕ

abbrev pub newline : List ℕ
newline = 10 ∷ []

module _ {Rr View : Type 0} (decode : List ℕ → List ℕ → Option (Option (Rpc Rr)))
    (dispatching : Rpc Rr → Run View Status) where
  -- `handle_content`, with `decode` for `rpc_decode_json`: the answer.
  abbrev pub answered : Option (Rpc Rr) → Run View Answer
  unfolding rpc_encode_json
  answered none = return (record { http_code = 400; body = codes "Can't parse" ++ newline })
  answered (some rpc) = do
    status ← dispatching rpc
    return (record { http_code = code_of status; body = (rpc_encode_json rpc).1 })

  unfoldable pub handle_content : List ℕ → List ℕ → Run View Answer
  unfolding answered
  handle_content url buf v = elim (decode url buf) [ none ↦ none | some rpc ↦ answered rpc v ]

  -- What a call of `handle_connection` gives: it takes a piece of the body, or it answers.
  pub data Outcome : Type 0 where
    accepted : Outcome
    queued : Answer → Outcome

  abbrev pub answer_for : List ℕ → List ℕ → List ℕ → Run View Outcome
  unfolding handle_content
  answer_for url method buf v =
      if is_equal (strcmp method (codes "POST"))
      then (do a ← handle_content url buf; return (queued a)) v
      else (if is_equal (strcmp method (codes "GET"))
          then some
              (queued (record { http_code = 200; body = codes "I don't GET it" ++ newline }), v)
          else some
              (queued (record { http_code = 400; body = codes "Who are you?" ++ newline }), v))

  -- `handle_connection`: the buffer of the connection is `none` before its first call, and each call
  -- comes with the bytes of `upload_data`.
  unfoldable pub handle_connection :
      List ℕ → List ℕ → Option (List ℕ) → List ℕ → Run View (Option (List ℕ) × Outcome)
  unfolding answer_for
  handle_connection url method none upload v = some ((some upload, accepted), v)
  handle_connection url method (some buf) [] v =
      (do outcome ← answer_for url method buf; return (some buf, outcome)) v
  handle_connection url method (some buf) (b ∷ bs) v = some ((some (buf ++ b ∷ bs), accepted), v)
