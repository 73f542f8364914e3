-- ===== src/Record/Signatures.antt =====
-- `names_recordaddsignature`.
use volans.Prelude.{
  ℕ, ◌≡◌, ◌≢◌, refl, inl, inr, Option, none, some, List, [], ◌∷◌, ◌++◌, arith, ◌==◌, if◌then◌else◌,
  Option-cases,
}
use volans.Record.{Array, minus, null, at, elements, Itemsig, Itemset, Dictionary}
use volans.Record.Data.{find_set, replace_set}
use volans.Record.Deletion.{find_set-replace}

module _ {Rr : Type 0} where
  -- The array of the span signatures with one more; `none` is the write before the first element of
  -- an array of -1 elements.
  abbrev with_signature : Array (Itemsig Rr) → Itemsig Rr → Option (Array (Itemsig Rr))
  with_signature minus sig = none
  with_signature null sig = some (at (sig ∷ []))
  with_signature (at sigs) sig = some (at (sigs ++ sig ∷ []))

  -- The array of an item set is allocated from that of the span: `none` leaves that one freed, or
  -- the signatures that the set had undefined, or writes before the first element.
  abbrev first_signature :
      Array (Itemsig Rr) → Array (Itemsig Rr) → Itemsig Rr → Option (Array (Itemsig Rr))
  first_signature null null sig = some (at (sig ∷ []))
  first_signature minus null sig = some (at (sig ∷ []))
  first_signature null (at []) sig = some (at (sig ∷ []))
  first_signature minus (at []) sig = some (at (sig ∷ []))
  first_signature _ _ sig = none

  abbrev in_span : Dictionary Rr → Option (Array (Itemsig Rr)) → Option (Dictionary Rr)
  in_span d none = none
  in_span d (some sigs) = some (record d { spansignatures = sigs })

  abbrev in_itemset :
      Dictionary Rr → Itemset Rr → Option (Array (Itemsig Rr)) → Option (Dictionary Rr)
  in_itemset d s none = none
  in_itemset d s (some sigs) = some (record d {
    itemsets = at (replace_set s.rrtype (record s { signatures = sigs }) (elements d.itemsets));
  })

  abbrev signed_set : Dictionary Rr → Itemsig Rr → Option (Itemset Rr) → Option (Dictionary Rr)
  signed_set d sig none = some d
  signed_set d sig (some s) = in_itemset d s (first_signature d.spansignatures s.signatures sig)

  -- `names_recordaddsignature`
  unfoldable pub recordaddsignature : Dictionary Rr → ℕ → Itemsig Rr → Option (Dictionary Rr)
  recordaddsignature d rrtype sig =
      if rrtype == 0
      then in_span d (with_signature d.spansignatures sig)
      else signed_set d sig (find_set rrtype (elements d.itemsets))

  found_type :
      (t : ℕ) (s : Itemset Rr) (sets : List (Itemset Rr)) → find_set t sets ≡ some s → s.rrtype ≡ t
  found_type t s [] e = cc
  found_type t s (z ∷ zs) e = ground (arith, found_type t s zs)

  again :
      (spans sigs sigs' : Array (Itemsig Rr)) (a b : Itemsig Rr)
      → first_signature spans sigs a ≡ some sigs'
      → first_signature spans sigs' b ≡ none
  again null null sigs' a b e = ground (arith, e)
  again minus null sigs' a b e = ground (arith, e)
  again null (at []) sigs' a b e = ground (arith, e)
  again minus (at []) sigs' a b e = ground (arith, e)
  again null (at (x ∷ xs)) sigs' a b e = cc
  again minus (at (x ∷ xs)) sigs' a b e = cc
  again null minus sigs' a b e = cc
  again minus minus sigs' a b e = cc
  again (at xs) sigs sigs' a b e = refl

  -- An item set of a record cannot be signed twice by names_recordaddsignature: after a first
  -- signature that succeeds, for a type that is not 0 and is there, a second one leaves undefined
  -- signatures.
  pub recordaddsignature_twice :
      (d d' : Dictionary Rr) (t : ℕ) (a b : Itemsig Rr) (s : Itemset Rr)
      → t ≢ 0
      → find_set t (elements d.itemsets) ≡ some s
      → recordaddsignature d t a ≡ some d'
      → recordaddsignature d' t b ≡ none
  unfolding recordaddsignature
  recordaddsignature_twice d d' t a b s n e f =
      elim (Option-cases (first_signature d.spansignatures s.signatures a)) [
        | inl none_left ↦ absurd (ground (arith, none_left, e, f))
        | inr (sigs, left) ↦
            let s' = record s { signatures = sigs } in
            let same_type = found_type t s (elements d.itemsets) e in
            let there = find_set-replace t t s' s (elements d.itemsets) e refl in
            ground (
              arith,
              left,
              e,
              f,
              same_type,
              there,
              again d.spansignatures s.signatures sigs a b left,
            )
      ]
