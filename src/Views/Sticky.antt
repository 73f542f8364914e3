-- ===== src/Views/Sticky.antt =====
-- Once `updateview` has met a conflict, its flag stays.
use volans.Prelude.{
  ℕ, ◌≡◌, refl, sym, ap, ◌∙◌, arith, Bool, true, Option, none, some, List, [], ◌∷◌,
}
use volans.Index.{Rbtree}
use volans.Table.{Nodes}
use volans.Views.Changes.{Change}
use volans.Views.Store.{View, recordgetid}
use volans.Views.Apply.{apply_table, apply_change, apply_record, is_hit, insert_all}

module _ {Rr Tree Log : Type 0} (rb : Rbtree Tree) (ns : Nodes Change Log)
    (dname_hash : List ℕ → Option (List ℕ) → Option (List ℕ)) where
  apply_record_keeps :
      (r : ℕ) (v w : View Rr Tree Log) (b : Bool)
      → apply_record rb ns dname_hash r true v ≡ some (b, w)
      → b ≡ true
  unfolding apply_record
  apply_record_keeps r v w b h =
      by_hit (is_hit rb ns dname_hash v (recordgetid (v.heap r))) (insert_all rb ns dname_hash r v)
        h
    where
      by_hit :
          (o : Option Bool) (i : Option (Unit {0} × View Rr Tree Log))
          → (elim o as (λ _. Option (Bool × View Rr Tree Log)) [
            | none ↦ none
            | some hit ↦ elim i as (λ _. Option (Bool × View Rr Tree Log)) [
              | none ↦ none
              | some (t, v') ↦ some (true, v')
            ]
          ])
            ≡ some (b, w)
          → b ≡ true
      by_hit none i h = cc h
      by_hit (some hit) none h = cc h
      by_hit (some hit) (some (t, v')) h = ground (arith, h)

  apply_change_keeps :
      (c : Option Change) (v w : View Rr Tree Log) (b : Bool)
      → apply_change rb ns dname_hash c true v ≡ some (b, w)
      → b ≡ true
  unfolding apply_change
  apply_change_keeps none v w b h = cc h
  apply_change_keeps (some ch) v w b h = by_record ch.newrecord h
    where
      by_record :
          (o : Option ℕ)
          → (elim o as (λ _. Option (Bool × View Rr Tree Log)) [
            | none ↦ none
            | some r ↦ apply_record rb ns dname_hash r true v
          ])
            ≡ some (b, w)
          → b ≡ true
      by_record none h = cc h
      by_record (some r) h = apply_record_keeps r v w b h

  pub apply_table_keeps :
      (cs : List (Option Change)) (v w : View Rr Tree Log) (b : Bool)
      → apply_table rb ns dname_hash cs true v ≡ some (b, w)
      → b ≡ true
  unfolding apply_table
  apply_table_keeps [] v w b h = ground (arith, h)
  apply_table_keeps (c ∷ cs) v w b h =
      by_result (apply_change rb ns dname_hash c true v) refl h (λ v'. apply_table_keeps cs v' w b)
    where
      by_result :
          (o : Option (Bool × View Rr Tree Log))
          → apply_change rb ns dname_hash c true v ≡ o
          → (elim o as (λ _. Option (Bool × View Rr Tree Log)) [
            | none ↦ none
            | some (conflict, v') ↦ apply_table rb ns dname_hash cs conflict v'
          ])
            ≡ some (b, w)
          → ((v' : View Rr Tree Log)
              → apply_table rb ns dname_hash cs true v' ≡ some (b, w)
              → b ≡ true)
          → b ≡ true
      by_result none e h again = cc h
      by_result (some (conflict, v')) e h again = again v' (
          ap (λ k. apply_table rb ns dname_hash cs k v')
            (sym (apply_change_keeps c v v' conflict e))
          ∙ h)
