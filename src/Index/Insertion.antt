-- ===== src/Index/Insertion.antt =====
-- What a lookup in an index finds after `names_indexinsert`.
use volans.Prelude.{
  ℕ, zero, suc, ◌<◌, ◌≡◌, refl, ◌∙◌, ap, Bool, ◌||◌, inl, inr, Option, none, some, ◌==◌,
  if◌then◌else◌, arith, Option-cases, Bool-cases,
}
use volans.Text.{Sign, equal}
use volans.Record.{Dictionary, recordhasmarker}
use volans.Record.Keys.{Verdict, recordindexfunction}
use volans.Record.Ordering.{recordindexfunction-order, recordindexfunction_codes}
use volans.Index.Searches.{Searches, order_same, Agrees, Holds, Holds_same, Holds-delete}
use volans.Index.{
  Rbtree, Index, indexinsert, found, order_at, accept_at, without, replaced, taken, refused,
  refused_by, decided, conflicted,
}

-- What an index holds for the text of `d` after it was inserted, where it held `cur`.
abbrev pub overwritten : Bool → ℕ → ℕ → ℕ → Option ℕ
overwritten marked d node zero = some node
overwritten marked d node (suc zero) = if marked then none else some d
overwritten marked d node _ = none

abbrev pub dropped : Bool → ℕ → ℕ → ℕ → Option ℕ
dropped marked d node code = if marked || (code == 0 || node == d) then none else some node

module _ {Rr : Type 0} where
  -- `alone` is the code of the record alone and `against` that beside the one that is held.
  abbrev pub held_after : (heap : ℕ → Dictionary Rr) → ℕ → ℕ → ℕ → Option ℕ → Option ℕ
  held_after heap d zero against none = none
  held_after heap d (suc _) against none = some d
  held_after heap d zero against (some node) = dropped (recordhasmarker (heap d)) d node against
  held_after heap d (suc _) against (some node) =
      overwritten (recordhasmarker (heap d)) d node against

module _ {Rr Tree : Type 0} (rb : Rbtree Tree) (heap : ℕ → Dictionary Rr) (ix : Index Rr Tree)
    (IsSorted : Tree → Type 0) (laws : Searches rb (order_at rb heap ix) IsSorted) where
  abbrev cmp : ℕ → ℕ → Sign
  cmp = order_at rb heap ix

  abbrev pub Inserts : Option (ℕ × Index Rr Tree) → ℕ → Option ℕ → Type 0
  Inserts r d o =
      (rc : ℕ) × (ix' : Index Rr Tree) × (r ≡ some (rc, ix'))
      × Holds rb (order_at rb heap ix) IsSorted laws ix.tree ix'.tree d o

  agrees : Agrees cmp
  agrees x a b h = order_same ix.keyname (heap x) (heap a) (heap b) h

  delete :
      (d n : ℕ)
      → IsSorted ix.tree
      → found rb heap ix d ≡ some n
      → Holds rb cmp IsSorted laws ix.tree (rb.delete cmp ix.tree n) d none
  delete d n s e = Holds-delete rb cmp IsSorted laws ix.tree d n agrees s e

  same :
      (d : ℕ) (o : Option ℕ)
      → IsSorted ix.tree
      → found rb heap ix d ≡ o
      → Holds rb cmp IsSorted laws ix.tree ix.tree d o
  same d o s e = Holds_same rb cmp IsSorted laws ix.tree d o s e

  replaced_lem :
      (d n code : ℕ)
      → IsSorted ix.tree
      → found rb heap ix d ≡ some n
      → code < 3
      → Inserts (replaced rb heap ix d n code) d (overwritten (recordhasmarker (heap d)) d n code)
  replaced_lem d n zero s e h = (0, ix, refl, same d (some n) s e)
  replaced_lem d n (suc zero) s e h = elim (Bool-cases (recordhasmarker (heap d))) [
    | inl m ↦ rw m (1, without rb heap ix n, refl, delete d n s e)
    | inr m ↦
        rw m (1, record ix { tree = rb.assign cmp ix.tree d }, refl, laws.assigned ix.tree d n s e)
  ]
  replaced_lem d n (suc (suc zero)) s e h = (0, without rb heap ix n, refl, delete d n s e)
  replaced_lem d n (suc (suc (suc code))) s e h = absurd (omega arith)

  refused_lem :
      (d n : ℕ) (w : Verdict)
      → IsSorted ix.tree
      → found rb heap ix d ≡ some n
      → accept_at rb heap ix d n ≡ some w
      → w.cmp ≡ some equal
      → Inserts (refused_by rb heap ix d n) d (dropped (recordhasmarker (heap d)) d n w.code)
  refused_lem d n w s e a c = elim (Bool-cases (recordhasmarker (heap d))) [
    | inl m ↦ rw m (0, without rb heap ix n, refl, delete d n s e)
    | inr m ↦ elim (Bool-cases (w.code == 0 || n == d)) [
      | inl z ↦ rw (m, a, c, z) (0, without rb heap ix n, refl, delete d n s e)
      | inr z ↦ rw (m, a, c, z) (0, ix, refl, same d (some n) s e)
    ]
  ]

  taken_new :
      (d : ℕ)
      → IsSorted ix.tree
      → found rb heap ix d ≡ none
      → Inserts (taken rb heap ix d (rb.insert cmp ix.tree d)) d (some d)
  taken_new d s e =
      let (t, i, s', all) = laws.inserted_new ix.tree d s e in
      (1, record ix { tree = t }, ap (taken rb heap ix d) i, (s', all))

  conflicted_lem :
      (d n : ℕ) (w : Verdict)
      → IsSorted ix.tree
      → found rb heap ix d ≡ some n
      → accept_at rb heap ix d n ≡ some w
      → w.code < 3
      → Inserts
          (conflicted rb heap ix d (some n))
          d
          (overwritten (recordhasmarker (heap d)) d n w.code)
  conflicted_lem d n w s e a h = rw a (replaced_lem d n w.code s e h)

  taken_old :
      (d n : ℕ) (w : Verdict)
      → IsSorted ix.tree
      → found rb heap ix d ≡ some n
      → accept_at rb heap ix d n ≡ some w
      → w.code < 3
      → Inserts
          (taken rb heap ix d (rb.insert cmp ix.tree d))
          d
          (overwritten (recordhasmarker (heap d)) d n w.code)
  taken_old d n w s e a h =
      let same_result =
        ap (taken rb heap ix d) (laws.inserted_old ix.tree d n s e)
        ∙ ap (conflicted rb heap ix d) e in
      let (rc, ix', result, holds) = conflicted_lem d n w s e a h in
      (rc, ix', same_result ∙ result, holds)

  -- Inserting a record into a sorted index, where the acceptance function gives a verdict (it
  -- meets no NULL name), succeeds and changes what is found for the records that equal it alone:
  -- whether that is the new record, the one that was there or none is decided by the verdicts on
  -- the record alone and beside the one that was there, and by its marker.
  pub indexinsert_lem :
      (d : ℕ) (v w : Verdict)
      → recordindexfunction ix.keyname ≡ some ix.acceptfunc
      → IsSorted ix.tree
      → ix.acceptfunc (heap d) none ≡ some v
      → ((n : ℕ) → found rb heap ix d ≡ some n → accept_at rb heap ix d n ≡ some w)
      → Inserts (indexinsert rb heap ix d) d (held_after heap d v.code w.code (found rb heap ix d))
  unfolding indexinsert
  indexinsert_lem d v w e s f g = elim (Option-cases (found rb heap ix d)) [
    | inl nothing ↦ rw (f, nothing) (new_by_code v.code nothing)
    | inr (n, h) ↦ rw (f, h) (by_code v.code n h)
  ]
    where
      new_by_code :
          (c : ℕ)
          → found rb heap ix d ≡ none
          → Inserts (decided rb heap ix d c) d (held_after heap d c w.code none)
      new_by_code zero h = (0, ix, ap (refused rb heap ix d) h, same d none s h)
      new_by_code (suc k) h = taken_new d s h

      by_code :
          (c n : ℕ)
          → found rb heap ix d ≡ some n
          → Inserts (decided rb heap ix d c) d (held_after heap d c w.code (some n))
      by_code zero n h =
          let compared =
            recordindexfunction-order ix.keyname ix.acceptfunc (heap d) (heap n) w e (g n h) in
          let (rc, ix', result, holds) =
            refused_lem d n w s h (g n h)
              (compared ∙ ap some (laws.search_equal ix.tree d n s h)) in
          (rc, ix', ap (refused rb heap ix d) h ∙ result, holds)
      by_code (suc k) n h =
          taken_old d n w s h (g n h)
            (recordindexfunction_codes ix.keyname ix.acceptfunc (heap d) (heap n) w e (g n h))
