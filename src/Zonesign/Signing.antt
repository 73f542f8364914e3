-- ===== src/Zonesign/Signing.antt =====
-- The loop of `sign` of zonesign.c.
use volans.Prelude.{
  ℕ, ◌≡◌, ◌≢◌, ap, ◌∙◌, Bool, true, false, if◌then◌else◌, Option, none, some, List, [], ◌∷◌, arith,
  All,
}
use volans.Prelude.Int.{pos}
use volans.Ldns.{Ldns}
use volans.Record.{Dictionary, elements}
use volans.Index.{Rbtree}
use volans.Table.{Nodes}
use volans.Table.Laws.{Maps}
use volans.Views.Changes.{Change}
use volans.Views.Store.{View, replaced_at}
use volans.Views.Usable.{Walks}
use volans.Record.Data.{is_nonempty, recordalltypes, walk_types}

-- No address stands twice in the list.
abbrev pub AreDistinct : List ℕ → Type 0
AreDistinct [] = Unit
AreDistinct (r ∷ rs) = All (λ x. x ≢ r) rs × AreDistinct rs

module _ {Rr : Type 0} where
  replaced_other :
      (heap : ℕ → Dictionary Rr) (r : ℕ) (d : Dictionary Rr) (a : ℕ)
      → a ≢ r
      → replaced_at heap r d a ≡ heap a
  replaced_other heap r d a h = ground (arith, h)

module _ {Rr Tree Log : Type 0} ⦃l : Ldns Rr⦄ (rb : Rbtree Tree) (walks : Walks rb)
    (ns : Nodes Change Log) (maps : Maps ns)
    (dname_hash : List ℕ → Option (List ℕ) → Option (List ℕ)) (in_order : Tree → List ℕ) where
  -- A record without item sets, that has no expiry yet.
  abbrev pub IsUnsigned : View Rr Tree Log → ℕ → Type 0
  IsUnsigned v r = (walk_types (recordalltypes (v.heap r)) ≡ some []) × ((v.heap r).expiry ≡ none)

  -- The records but for their expiry.
  abbrev pub unsigned : Dictionary Rr → Dictionary Rr
  unsigned d = record d { expiry = none }

  IsUnsigned-Later :
      (v v' : View Rr Tree Log) (r x : ℕ)
      → v'.heap ≡ replaced_at v.heap r (record (v.heap r) { expiry = some (pos 1) })
      → x ≢ r
      → IsUnsigned v x
      → IsUnsigned v' x
  IsUnsigned-Later v v' r x h ne u =
      let same : v'.heap x ≡ v.heap x = ap (λ heap. heap x) h ∙ replaced_other v.heap r _ x ne in
      (ap (λ d. walk_types (recordalltypes d)) same ∙ u.0, ap (λ d. d.expiry) same ∙ u.1)

  -- Some of the records has an item set, so that the walk over its types does not go through.
  abbrev pub any_set : View Rr Tree Log → List ℕ → Bool
  any_set v [] = false
  any_set v (r ∷ rs) = if is_nonempty (elements (v.heap r).itemsets) then true else any_set v rs

  abbrev pub IsFresh : View Rr Tree Log → ℕ → Type 0
  IsFresh v r = (v.heap r).expiry ≡ none

  -- What the loop leaves where it goes through: every record of it has the expiry 1, and nothing
  -- else of any record is changed.
  abbrev pub Signed : List ℕ → View Rr Tree Log → View Rr Tree Log → Type 0
  Signed rs v v' =
      ((a : ℕ) → unsigned (v'.heap a) ≡ unsigned (v.heap a))
      × ((a : ℕ) → All (λ x. x ≢ a) rs → (v'.heap a).expiry ≡ (v.heap a).expiry)
      × All (λ r. (v'.heap r).expiry ≡ some (pos 1)) rs
