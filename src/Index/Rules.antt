-- ===== src/Index/Rules.antt =====
-- Consequences of `names_indexinsert` and `names_indexremove` for the indices of the views.
use volans.Prelude.{
  ℕ, zero, suc, ◌≡◌, ◌≢◌, refl, sym, ◌∙◌, ap, true, false, ◌⊎◌, inl, inr, Option, none, some, List,
  if◌then◌else◌, arith, Bool-cases,
}
use volans.Text.{equal, is_equal, decimal_ℤ}
use volans.Text.Decimal.{strcmp_refl}
use volans.Record.{Dictionary, recordhasmarker}
use volans.Record.Keys.{
  nameupcoming, nameready, validnow, Verdict, verdict, recordindexfunction, compareupcomingset,
  getset, getset_rc,
}
use volans.Index.{
  Rbtree, Index, indexinsert, indexremove, found, order_at, accept_at, taken, conflicted,
}
use volans.Index.Searches.{Searches}
use volans.Index.Insertion.{held_after, indexinsert_lem}

module _ {Rr : Type 0} where
  upcoming_alone :
      (d : Dictionary Rr) → compareupcomingset d none ≡ some (record { code = 1; cmp = none })
  unfolding compareupcomingset
  upcoming_alone d = refl

  upcoming_again :
      (d n : Dictionary Rr) (text : List ℕ)
      → d.name ≡ some text
      → n.name ≡ some text
      → d.revision ≡ n.revision
      → compareupcomingset d (some n) ≡ verdict 0 equal
  unfolding compareupcomingset getset
  upcoming_again d n text a b r =
      rw (a, b, r, strcmp_refl text, strcmp_refl (decimal_ℤ n.revision)) refl

module _ {Rr Tree : Type 0} (rb : Rbtree Tree) (heap : ℕ → Dictionary Rr) (ix : Index Rr Tree)
    (IsSorted : Tree → Type 0) (laws : Searches rb (order_at rb heap ix) IsSorted) where
  -- Every record that is found is one that the index takes alone.
  abbrev pub HoldsAccepted : Index Rr Tree → Type 0
  HoldsAccepted ix' =
      (x n : ℕ)
      → rb.search (order_at rb heap ix) ix'.tree x ≡ some n
      → (v : Verdict) × (ix.acceptfunc (heap n) none ≡ some v) × (v.code ≢ 0)

  after :
      (d n c against : ℕ) (o : Option ℕ)
      → held_after heap d c against o ≡ some n
      → ((n ≡ d) × (c ≢ 0)) ⊎ (o ≡ some n)
  after d n zero against none h = cc
  after d n (suc c) against none h = inl (cc h, λ z. omega arith)
  after d n zero against (some m) h = inr (ground (arith, h))
  after d n (suc c) zero (some m) h = inr h
  after d n (suc c) (suc zero) (some m) h = inl (ground (arith, h), λ z. omega arith)
  after d n (suc c) (suc (suc k)) (some m) h = cc

  -- Inserting a record into a sorted index in which all records found are ones that it accepts
  -- alone succeeds and leaves it so, where the acceptance function gives a verdict (it meets no
  -- NULL name).
  pub indexinsert-HoldsAccepted :
      (d : ℕ) (v w : Verdict)
      → recordindexfunction ix.keyname ≡ some ix.acceptfunc
      → IsSorted ix.tree
      → HoldsAccepted ix
      → ix.acceptfunc (heap d) none ≡ some v
      → ((n : ℕ) → found rb heap ix d ≡ some n → accept_at rb heap ix d n ≡ some w)
      → (rc : ℕ) × (ix' : Index Rr Tree) × (indexinsert rb heap ix d ≡ some (rc, ix'))
        × IsSorted ix'.tree
        × HoldsAccepted ix'
  indexinsert-HoldsAccepted d v w e s a f g =
      let (rc, ix', result, (s', all)) = indexinsert_lem rb heap ix IsSorted laws d v w e s f g in
      (
        rc,
        ix',
        result,
        s',
        λ x n h. held ix' all x n h (Bool-cases (is_equal (order_at rb heap ix x d))),
      )
    where
      entered :
          (n : ℕ)
          → held_after heap d v.code w.code (found rb heap ix d) ≡ some n
          → (u : Verdict) × (ix.acceptfunc (heap n) none ≡ some u) × (u.code ≢ 0)
      entered n h = elim (after d n v.code w.code (found rb heap ix d) h) [
        | inl (same, taken_alone) ↦ (v, rw same f, taken_alone)
        | inr before ↦ a d n before
      ]

      held :
          (ix' : Index Rr Tree)
          → ((x : ℕ)
              → rb.search (order_at rb heap ix) ix'.tree x ≡ (
                  if is_equal (order_at rb heap ix x d)
                  then held_after heap d v.code w.code (found rb heap ix d)
                  else found rb heap ix x))
          → (x n : ℕ) → rb.search (order_at rb heap ix) ix'.tree x ≡ some n
          → (is_equal (order_at rb heap ix x d) ≡ true)
            ⊎ (is_equal (order_at rb heap ix x d) ≡ false)
          → (u : Verdict) × (ix.acceptfunc (heap n) none ≡ some u) × (u.code ≢ 0)
      held ix' all x n h (inl e) = entered n (
          sym (
            all x
            ∙ ap
                (λ b.
                  if b
                  then held_after heap d v.code w.code (found rb heap ix d)
                  else found rb heap ix x)
                e)
          ∙ h)
      held ix' all x n h (inr e) = a x n (
          sym (
            all x
            ∙ ap
                (λ b.
                  if b
                  then held_after heap d v.code w.code (found rb heap ix d)
                  else found rb heap ix x)
                e)
          ∙ h)

  -- Inserting a record that is marked as deleted into a sorted index of upcoming records, which
  -- holds one of its name and revision, returns 0 and changes nothing.
  pub indexinsert_marked_stays :
      (d n : ℕ) (text : List ℕ)
      → ix.acceptfunc ≡ compareupcomingset
      → IsSorted ix.tree
      → found rb heap ix d ≡ some n
      → (heap d).name ≡ some text
      → (heap n).name ≡ some text
      → (heap d).revision ≡ (heap n).revision
      → recordhasmarker (heap d) ≡ true
      → indexinsert rb heap ix d ≡ some (0, ix)
  unfolding indexinsert
  indexinsert_marked_stays d n text e s h a b r m =
      let conflict =
        ap (taken rb heap ix d) (laws.inserted_old ix.tree d n s h)
        ∙ ap (conflicted rb heap ix d) h in
      let alone = ap (λ accept. accept (heap d) none) e ∙ upcoming_alone (heap d) in
      let against =
        ap (λ accept. accept (heap d) (some (heap n))) e
        ∙ upcoming_again (heap d) (heap n) text a b r in
      rw alone (conflict ∙ rw against refl)

module _ {Rr Tree : Type 0} (rb : Rbtree Tree) (heap : ℕ → Dictionary Rr) (find : ℕ) where
  -- names_indexremove of a record with a name returns 0 and does nothing on an index of upcoming
  -- records, and aborts on one of ready or of currently valid records.
  pub indexremove_cases :
      (ix : Index Rr Tree) (d : ℕ) (text : List ℕ)
      → (heap d).name ≡ some text
      → (indexremove rb heap find (record ix { keyname = nameupcoming }) d
          ≡ some (0, record ix { keyname = nameupcoming }))
        × (indexremove rb heap find (record ix { keyname = nameready }) d ≡ none)
        × (indexremove rb heap find (record ix { keyname = validnow }) d ≡ none)
  unfolding indexremove getset getset_rc
  indexremove_cases ix d text h = (rw h refl, refl, refl)
