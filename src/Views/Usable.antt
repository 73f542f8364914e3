-- ===== src/Views/Usable.antt =====
-- The calls of views.c on a view whose records can be read: they neither abort nor read through
-- NULL.
use volans.Prelude.{
  ℕ, zero, suc, ◌≡◌, ◌<◌, ◌≢◌, ◌⊎◌, refl, ap, ◌∙◌, Bool, true, false, Option, none, some, List,
  arith, ◌==◌, ◌&&◌, ◌||◌, if◌then◌else◌, Option-cases, inl, inr,
}
use volans.Prelude.Int.{pos, ◌+ℤ◌}
use volans.Text.{equal, Sign, is_equal, is_greater, strcmp, decimal_ℤ}
use volans.Record.{
  Dictionary, recordhasmarker, Array, Itemset, minus, null, at, copy_itemset, recordcopy,
  copy_array,
}
use volans.Record.Keys.{
  nameupcoming, compareupcomingset, comparenamehierarchy, getset, getset_rc, Verdict, ◌>>=◌,
}
use volans.Index
use volans.Index.{
  Rbtree, Index, indexinsert, indexremove, indexlookupkey, found, is_equal_cmp, order_at, without,
  with_tree, accept_at, conflicted, replaced, taken, refused, indexremovekey, indexlookup,
}

-- What ldns documents of the tree, for any comparison: a search returns only a node that compares
-- equal, and an insertion fails only where a search along the same path finds a node.
pub record Walks {Tree : Type 0} (rb : Rbtree Tree) : Type 0 where
  pub search_equal :
      (cmp : ℕ → ℕ → Sign) (t : Tree) (x n : ℕ) → rb.search cmp t x ≡ some n → cmp x n ≡ equal
  pub insert_found :
      (cmp : ℕ → ℕ → Sign) (t : Tree) (d : ℕ) → rb.insert cmp t d ≡ none → rb.search cmp t d ≢ none

module _ {Rr : Type 0} where
  -- A record with a name and a span hash, and with sets that can be read.
  pub record IsUsable (d : Dictionary Rr) : Type 0 where
    pub named : d.name ≢ none
    pub hashed : d.spanhash ≢ none
    pub counted : d.itemsets ≢ minus

  pub recordcopy-IsUsable :
      (d : Dictionary Rr)
      → IsUsable d
      → (d' : Dictionary Rr) × (recordcopy d ≡ some d')
        × IsUsable d'
        × (d'.name ≡ d.name)
        × (d'.revision ≡ d.revision +ℤ pos 1)
  unfolding recordcopy
  recordcopy-IsUsable d u = elim (Option-cases d.spanhash) [
    | inl e ↦ absurd (u.hashed e)
    | inr (hash, e) ↦ (
      record {
        name = d.name;
        revision = d.revision +ℤ pos 1;
        marker = pos 0;
        spanhash = some hash;
        spansignatures = null;
        validupto = none;
        validfrom = none;
        expiry = none;
        itemsets = copy_array copy_itemset d.itemsets;
      },
      rw e refl,
      record { named = u.named; hashed = λ z. cc z; counted = λ z. copied d.itemsets u.counted z },
      refl,
      refl,
    )
  ]
    where
      copied : (a : Array (Itemset Rr)) → a ≢ minus → copy_array copy_itemset a ≡ minus → ⊥
      copied minus n z = n refl
      copied null n z = cc z
      copied (at l) n z = cc z

  pub compareupcomingset_verdict :
      (new cur : Dictionary Rr)
      → IsUsable new
      → IsUsable cur
      → (v : Verdict) × (compareupcomingset new (some cur) ≡ some v) × ((v.code ≡ 0) ⊎ (v.code ≡ 1))
  unfolding compareupcomingset getset
  compareupcomingset_verdict new cur a b = by_names new.name cur.name refl refl
    where
      by_names :
          (n m : Option (List ℕ))
          → new.name ≡ n
          → cur.name ≡ m
          → (v : Verdict) × (compareupcomingset new (some cur) ≡ some v)
            × ((v.code ≡ 0) ⊎ (v.code ≡ 1))
      by_names none m e f = absurd (a.named e)
      by_names (some n) none e f = absurd (b.named f)
      by_names (some n) (some m) e f = (
        record {
          code =
              if is_equal (strcmp n m)
              then (if is_greater (strcmp (decimal_ℤ new.revision) (decimal_ℤ cur.revision))
                  then 1
                  else 0)
              else 1;
          cmp = some (strcmp n m);
        },
        rw (e, f) refl,
        ground arith,
      )

module _ {Rr : Type 0} where
  -- An acceptance function that decides on all records that can be read: its code for two of them
  -- is 0, 1 or 2.
  pub record IsDecided (accept : Dictionary Rr → Option (Dictionary Rr) → Option Verdict)
      : Type 0 where
    pub alone : (d : Dictionary Rr) → IsUsable d → (v : Verdict) × (accept d none ≡ some v)
    pub beside :
        (new cur : Dictionary Rr)
        → IsUsable new
        → IsUsable cur
        → (v : Verdict) × (accept new (some cur) ≡ some v) × (v.code < 3)

  pub compareupcomingset-IsDecided : IsDecided compareupcomingset
  unfolding compareupcomingset
  compareupcomingset-IsDecided = record {
    alone = λ d u. (_, refl);
    beside = λ new cur a b.
        let (v, e, c) = compareupcomingset_verdict new cur a b in (v, e, ground arith);
  }

  hierarchy_verdict :
      (new cur : Dictionary Rr)
      → IsUsable new
      → IsUsable cur
      → (v : Verdict) × (comparenamehierarchy new (some cur) ≡ some v) × (v.code < 3)
  unfolding comparenamehierarchy getset
  hierarchy_verdict new cur a b = by_names new.name cur.name refl refl
    where
      by_names :
          (n m : Option (List ℕ))
          → new.name ≡ n
          → cur.name ≡ m
          → (v : Verdict) × (comparenamehierarchy new (some cur) ≡ some v) × (v.code < 3)
      by_names none m e f = absurd (a.named e)
      by_names (some n) none e f = absurd (b.named f)
      by_names (some n) (some m) e f =
          (record { code = 1; cmp = some (strcmp m n) }, rw (e, f) refl, omega arith)

  pub comparenamehierarchy-IsDecided : IsDecided comparenamehierarchy
  unfolding comparenamehierarchy
  comparenamehierarchy-IsDecided = record { alone = λ d u. (_, refl); beside = hierarchy_verdict }

module _ {Rr Tree : Type 0} where
  -- The indices of the input view, `nameupcoming` first, decide; and `after` has the key and the
  -- acceptance function of `before`.
  abbrev pub Like : Index Rr Tree → Index Rr Tree → Type 0
  Like before after = (after.keyname ≡ before.keyname) × (after.acceptfunc ≡ before.acceptfunc)

module _ {Rr Tree : Type 0} (rb : Rbtree Tree) (walks : Walks rb) (heap : ℕ → Dictionary Rr)
    (usable : (a : ℕ) → IsUsable (heap a)) (ix : Index Rr Tree)
    (decided : IsDecided ix.acceptfunc) where
  abbrev Inserted : Option (ℕ × Index Rr Tree) → Type 0
  Inserted o = (rc : ℕ) × (ix' : Index Rr Tree) × (o ≡ some (rc, ix')) × Like ix ix'

  Like-choice :
      (b : Bool) (x y : Index Rr Tree) → Like ix x → Like ix y → Like ix (if b then x else y)
  Like-choice true x y h k = h
  Like-choice false x y h k = k

  replaced-Like : (d n code : ℕ) → code < 3 → Inserted (replaced rb heap ix d n code)
  replaced-Like d n zero c = (0, ix, refl, (refl, refl))
  replaced-Like d n (suc zero) c =
      (1, _, refl, Like-choice (recordhasmarker (heap d)) _ _ (refl, refl) (refl, refl))
  replaced-Like d n (suc (suc zero)) c = (0, _, refl, (refl, refl))
  replaced-Like d n (suc (suc (suc k))) c = absurd (omega arith)

  conflicted-Like : (d n : ℕ) → Inserted (conflicted rb heap ix d (some n))
  conflicted-Like d n =
      let (v, a, c) = decided.beside (heap d) (heap n) (usable d) (usable n) in
      let (rc, ix', r, u) = replaced-Like d n v.code c in
      (rc, ix', ap (λ o. o >>= λ w. replaced rb heap ix d n w.code) a ∙ r, u)

  taken-Like :
      (d : ℕ) (o : Option Tree) (f : Option ℕ)
      → rb.insert (order_at rb heap ix) ix.tree d ≡ o
      → found rb heap ix d ≡ f
      → Inserted (taken rb heap ix d o)
  taken-Like d (some t) f e h = (1, with_tree rb heap ix t, refl, (refl, refl))
  taken-Like d none none e h = absurd (walks.insert_found (order_at rb heap ix) ix.tree d e h)
  taken-Like d none (some n) e h =
      let (rc, ix', r, u) = conflicted-Like d n in (rc, ix', ap (conflicted rb heap ix d) h ∙ r, u)

  refused_by-Like :
      (d n : ℕ) (v : Verdict)
      → accept_at rb heap ix d n ≡ some v
      → (b : Bool) → recordhasmarker (heap d) ≡ b
      → Inserted (refused rb heap ix d (some n))
  refused_by-Like d n v a true m = (0, without rb heap ix n, rw m refl, (refl, refl))
  refused_by-Like d n v a false m =
      let goes = v.code == 0 || (is_equal_cmp rb heap v.cmp && n == d) in
      (
        0,
        if goes then without rb heap ix n else ix,
        rw m (rw a refl),
        Like-choice goes (without rb heap ix n) ix (refl, refl) (refl, refl),
      )

  refused-Like : (d : ℕ) (o : Option ℕ) → Inserted (refused rb heap ix d o)
  refused-Like d none = (0, ix, refl, (refl, refl))
  refused-Like d (some n) =
      let (v, a, c) = decided.beside (heap d) (heap n) (usable d) (usable n) in
      refused_by-Like d n v a (recordhasmarker (heap d)) refl

  decided-Like : (d code : ℕ) → Inserted (Index.decided rb heap ix d code)
  decided-Like d zero = refused-Like d (found rb heap ix d)
  decided-Like d (suc k) =
      taken-Like d (rb.insert (order_at rb heap ix) ix.tree d) (found rb heap ix d) refl refl

  -- An insertion goes through, and leaves the key and the acceptance function of the index.
  pub indexinsert-Like :
      (d : ℕ)
      → (rc : ℕ) × (ix' : Index Rr Tree) × (indexinsert rb heap ix d ≡ some (rc, ix')) × Like ix ix'
  unfolding indexinsert
  indexinsert-Like d =
      let (v, e) = decided.alone (heap d) (usable d) in
      let (rc, ix', r, u) = decided-Like d v.code in
      (rc, ix', ap (λ o. o >>= λ w. Index.decided rb heap ix d w.code) e ∙ r, u)

module _ {Rr Tree : Type 0} (rb : Rbtree Tree) (heap : ℕ → Dictionary Rr)
    (usable : (a : ℕ) → IsUsable (heap a)) (ix : Index Rr Tree)
    (keyed : ix.keyname ≡ nameupcoming) where
  -- In the index `nameupcoming` a record is not removed.
  pub indexremove_nothing : (d find : ℕ) → indexremove rb heap find ix d ≡ some (0, ix)
  unfolding indexremove getset_rc getset
  indexremove_nothing d find = elim (Option-cases (heap d).name) [
    | inl e ↦ absurd ((usable d).named e)
    | inr (text, e) ↦ rw (keyed, e) refl
  ]
