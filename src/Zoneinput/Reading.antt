-- ===== src/Zoneinput/Reading.antt =====
-- A zone file read into the input view.
use volans.Prelude.{
  ℕ, ◌≡◌, ◌≢◌, refl, sym, ap, subst, ◌∙◌, Bool, true, false, Option, none, some, List, [], ◌∷◌,
  arith, All,
}
use volans.Ldns.{Ldns}
use volans.Record.{Dictionary}
use volans.Record.Data.{recordhasdata, recorddeldata}
use volans.Index.{Rbtree}
use volans.Table.{Nodes}
use volans.Table.Laws.{Maps}
use volans.Views.Changes.{Change}
use volans.Views.Store.{View, >>=-some, replaced_at, take_record, own_record, place_record}
use volans.Views.Usable.{Walks}
use volans.Views.Detection.{IsServing}
use volans.Views.Serving.{
  own_record-IsServing, place_record-IsServing, take_record-IsServing, add_rr-IsUsable,
  assign-IsServing, recorddeldata-IsUsable,
}
use volans.Zoneinput.{
  Operation, switched, plain, deltaminus, deltaplus, Line, resource, syntax_include, syntax_ttl,
  syntax_origin, syntax_empty, syntax_error, Reader, add_owned, delete_owned, read_plus, read_minus,
  read_rr, read_line, read_lines, readzone, starting,
}
use volans.Zoneinput.Lines.{operation_after, apex_after, IsSupported}

abbrev after_unit : {View : Type 0} → Option (Unit {0} × View) → Option (List (List ℕ) × View)
after_unit none = none
after_unit (some (t, v)) = some ([], v)

abbrev reader_at : Operation → Option (List ℕ) → Reader
reader_at operation apex = record { operation = operation; apex = apex; removals = [] }

reader_after :
    {Rr : Type 0} (x : Line Rr) (xs : List (Line Rr)) (operation : Operation)
    (apex : Option (List ℕ))
    → reader_at (operation_after operation (x ∷ xs)) (apex_after apex (x ∷ xs))
      ≡ reader_at
          (operation_after (operation_after operation (x ∷ [])) xs)
          (apex_after (apex_after apex (x ∷ [])) xs)
reader_after (resource rr) xs operation apex = refl
reader_after syntax_include xs operation apex = refl
reader_after syntax_ttl xs operation apex = refl
reader_after (syntax_origin text) xs operation apex = refl
reader_after syntax_empty xs operation apex = refl
reader_after syntax_error xs operation apex = refl

switched_delta : (operation : Operation) → operation ≢ plain → switched operation ≢ plain
switched_delta plain h e = absurd (h refl)
switched_delta deltaminus h e = cc e
switched_delta deltaplus h e = cc e

-- A delta stays one.
delta_after :
    {Rr : Type 0} (x : Line Rr) (operation : Operation)
    → operation ≢ plain
    → operation_after operation (x ∷ []) ≢ plain
delta_after (resource rr) operation h = h
delta_after syntax_include operation h = h
delta_after syntax_ttl operation h = h
delta_after (syntax_origin text) operation h = h
delta_after syntax_empty operation h = switched_delta operation h
delta_after syntax_error operation h = h

module _ {Rr Tree Log : Type 0} ⦃l : Ldns Rr⦄ (rb : Rbtree Tree) (walks : Walks rb)
    (ns : Nodes Change Log) (maps : Maps ns)
    (dname_hash : List ℕ → Option (List ℕ) → Option (List ℕ)) (owner : Rr → List ℕ)
    (ident : List ℕ → ℕ → Rr → List ℕ) where
  -- A call goes through, and leaves an input view of the same zone.
  abbrev Going : {A : Type 0} → A → View Rr Tree Log → Option (A × View Rr Tree Log) → Type 0
  Going a v o = (v' : View Rr Tree Log) × (o ≡ some (a, v')) × IsServing v' × (v'.apex ≡ v.apex)

  add_owned-IsServing :
      (r : ℕ) (rr : Rr) (v : View Rr Tree Log)
      → IsServing v
      → Going tt v (add_owned rb ns dname_hash owner ident r rr v)
  add_owned-IsServing r rr v s =
      let (r', v1, e1, s1, a1) = own_record-IsServing rb walks ns maps dname_hash v r s in
      let (d', e, u) = add_rr-IsUsable (v1.heap r') rr (s1.served.usable r') in
      (
        record v1 { heap = replaced_at v1.heap r' d' },
        >>=-some (own_record rb ns dname_hash r) _ v e1 ∙ ground (arith, e),
        assign-IsServing v1 r' d' u s1,
        a1,
      )

  delete_owned-IsServing :
      (r : ℕ) (rr : Rr) (v : View Rr Tree Log)
      → IsServing v
      → Going tt v (delete_owned rb ns dname_hash owner ident r rr v)
  delete_owned-IsServing r rr v s =
      let (r', v1, e1, s1, a1) = own_record-IsServing rb walks ns maps dname_hash v r s in
      let d' = recorddeldata (v1.heap r') (l.type_of rr) rr in
      (
        record v1 { heap = replaced_at v1.heap r' d' },
        >>=-some (own_record rb ns dname_hash r) _ v e1,
        assign-IsServing v1 r' d'
            (recorddeldata-IsUsable (v1.heap r') (l.type_of rr) rr (s1.served.usable r')) s1,
        a1,
      )

  read_plus-IsServing :
      (r : ℕ) (rr : Rr) (present : Bool) (v : View Rr Tree Log)
      → IsServing v
      → Going tt v (read_plus rb ns dname_hash owner ident r rr present v)
  read_plus-IsServing r rr true v s = (v, refl, s, refl)
  read_plus-IsServing r rr false v s = add_owned-IsServing r rr v s

  read_minus-IsServing :
      (found : Option ℕ) (rr : Rr) (v : View Rr Tree Log)
      → IsServing v
      → Going tt v (read_minus rb ns dname_hash owner ident found rr v)
  read_minus-IsServing none rr v s = (v, refl, s, refl)
  read_minus-IsServing (some r) rr v s =
      by_test (recordhasdata (v.heap r) (l.type_of rr) (some rr) false) refl
    where
      by_test :
          (b : Bool)
          → recordhasdata (v.heap r) (l.type_of rr) (some rr) false ≡ b
          → Going tt v (read_minus rb ns dname_hash owner ident (some r) rr v)
      by_test true e =
          let (v1, e1, s1, a1) = delete_owned-IsServing r rr v s in (v1, rw e e1, s1, a1)
      by_test false e = (v, rw e refl, s, refl)

  read_rr-IsServing :
      (operation : Operation) (rr : Rr) (v : View Rr Tree Log)
      → operation ≢ plain
      → ((n : List ℕ) → dname_hash n v.apex ≢ none)
      → IsServing v
      → Going [] v (read_rr rb ns dname_hash owner ident operation rr [] v)
  read_rr-IsServing plain rr v delta hashes s = absurd (delta refl)
  read_rr-IsServing deltaplus rr v delta hashes s =
      let (r, v1, e1, s1, a1) =
        place_record-IsServing rb walks ns maps dname_hash v (owner rr) hashes s in
      let (v2, e2, s2, a2) =
        read_plus-IsServing r rr (recordhasdata (v1.heap r) (l.type_of rr) (some rr) true) v1 s1 in
      (
        v2,
        >>=-some (place_record rb ns dname_hash (owner rr)) _ v e1 ∙ ap after_unit e2,
        s2,
        a2 ∙ a1,
      )
  read_rr-IsServing deltaminus rr v delta hashes s =
      let (found, e) = take_record-IsServing rb walks ns maps dname_hash v (owner rr) s in
      let (v1, e1, s1, a1) = read_minus-IsServing found rr v s in
      (v1, >>=-some (take_record rb ns dname_hash (owner rr)) _ v e ∙ ap after_unit e1, s1, a1)

  read_line-IsServing :
      (x : Line Rr) (operation : Operation) (apex : Option (List ℕ)) (v : View Rr Tree Log)
      → IsSupported x
      → operation ≢ plain
      → ((n : List ℕ) → dname_hash n v.apex ≢ none)
      → IsServing v
      → Going
          (reader_at (operation_after operation (x ∷ [])) (apex_after apex (x ∷ [])))
          v
          (read_line rb ns dname_hash owner ident x (reader_at operation apex) v)
  unfolding read_line
  read_line-IsServing (resource rr) operation apex v h delta hashes s =
      let (v1, e1, s1, a1) = read_rr-IsServing operation rr v delta hashes s in
      (v1, ground (arith, e1), s1, a1)
  read_line-IsServing syntax_include operation apex v h delta hashes s = absurd (h refl)
  read_line-IsServing syntax_ttl operation apex v h delta hashes s = (v, refl, s, refl)
  read_line-IsServing (syntax_origin text) operation apex v h delta hashes s = (v, refl, s, refl)
  read_line-IsServing syntax_empty operation apex v h delta hashes s = (v, refl, s, refl)
  read_line-IsServing syntax_error operation apex v h delta hashes s = (v, refl, s, refl)

  read_lines-IsServing :
      (xs : List (Line Rr)) (operation : Operation) (apex : Option (List ℕ)) (v : View Rr Tree Log)
      → All IsSupported xs
      → operation ≢ plain
      → ((n : List ℕ) → dname_hash n v.apex ≢ none)
      → IsServing v
      → Going
          (reader_at (operation_after operation xs) (apex_after apex xs))
          v
          (read_lines rb ns dname_hash owner ident xs (reader_at operation apex) v)
  unfolding read_lines
  read_lines-IsServing [] operation apex v h delta hashes s = (v, refl, s, refl)
  read_lines-IsServing (x ∷ xs) operation apex v h delta hashes s =
      let (v1, e1, s1, a1) = read_line-IsServing x operation apex v h.0 delta hashes s in
      let (v2, e2, s2, a2) =
        read_lines-IsServing xs (operation_after operation (x ∷ [])) (apex_after apex (x ∷ [])) v1
          h.1 (delta_after x operation delta)
          (λ n. subst (λ a. dname_hash n a ≢ none) (sym a1) (hashes n)) s1 in
      (
        v2,
        >>=-some (read_line rb ns dname_hash owner ident x (reader_at operation apex)) _ v e1
            ∙ e2
            ∙ ap (λ r. some (r, v2)) (sym (reader_after x xs operation apex)),
        s2,
        a2 ∙ a1,
      )

  starting_delta :
      (operation : Operation) (records : List (Dictionary Rr))
      → operation ≢ plain
      → starting rb ns dname_hash owner ident operation records ≡ some []
  unfolding starting
  starting_delta plain records h = absurd (h refl)
  starting_delta deltaminus records h = refl
  starting_delta deltaplus records h = refl

  -- Reading a delta to the end goes through, and leaves in *apexptr the text of the last $ORIGIN,
  -- or what was there if there is none. The file has no $INCLUDE, names can be hashed with the
  -- apex of the view, which has the index of upcoming records first and indices that decide, and
  -- all records have a name and a hash of it, and the count of no array of sets is -1.
  pub readzone_lem :
      (operation : Operation) (lines : List (Line Rr)) (apex : Option (List ℕ))
      (records : List (Dictionary Rr)) (v : View Rr Tree Log)
      → All IsSupported lines
      → operation ≢ plain
      → ((n : List ℕ) → dname_hash n v.apex ≢ none)
      → IsServing v
      → Going
          (apex_after apex lines)
          v
          (readzone rb ns dname_hash owner ident operation lines apex records v)
  unfolding readzone
  readzone_lem operation lines apex records v h delta hashes s =
      let (v1, e1, s1, a1) = read_lines-IsServing lines operation apex v h delta hashes s in
      (v1, ground (arith, starting_delta operation records delta, e1), s1, a1)
