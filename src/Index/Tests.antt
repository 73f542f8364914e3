-- ===== src/Index/Tests.antt =====
-- A list in place of the tree, and an index of two sample records.
use volans.Prelude.{
  ℕ, zero, suc, ◌≡◌, refl, ap, true, none, some, List, [], ◌∷◌, if◌then◌else◌, arith,
}
use volans.Prelude.Int.{pos}
use volans.Text.{Sign, equal, is_equal, strcmp, decimal}
use volans.Text.Decimal.{strcmp_refl}
use volans.Samples.{Sample}
use volans.Samples.Trees.{list_tree, search, insert, delete, assign}
use volans.Record.{Dictionary, recordcreate, recordhasmarker}
use volans.Record.Keys.{
  Keyname, nameupcoming, verdict, recordindexfunction, compareupcomingset, getset,
}
use volans.Record.Ordering.{key_text, is_reversed}
use volans.Index.{Index, indexinsert, found, order_at, accept_at}
use volans.Index.Searches.{Searches, is_equal_lem, same_text}
use volans.Index.Insertion.{Inserts, held_after, indexinsert_lem}
use volans.Index.Rules.{HoldsAccepted, indexinsert-HoldsAccepted, indexinsert_marked_stays}

record Equates (cmp : ℕ → ℕ → Sign) : Type 0 where
  self : (a : ℕ) → is_equal (cmp a a) ≡ true
  alike : (x a b : ℕ) → is_equal (cmp a b) ≡ true → is_equal (cmp x a) ≡ is_equal (cmp x b)
  alike_left : (a b x : ℕ) → is_equal (cmp a b) ≡ true → is_equal (cmp a x) ≡ is_equal (cmp b x)

module _ (cmp : ℕ → ℕ → Sign) (eq : Equates cmp) where
  search_equal : (t : List ℕ) (x n : ℕ) → search cmp t x ≡ some n → is_equal (cmp x n) ≡ true
  search_equal [] x n h = cc
  search_equal (m ∷ ms) x n h = ground (arith, search_equal ms x n)

  search_same : (t : List ℕ) (x d : ℕ) → is_equal (cmp x d) ≡ true → search cmp t x ≡ search cmp t d
  search_same [] x d h = refl
  search_same (m ∷ ms) x d h = ground (arith, eq.alike_left x d m, search_same ms x d h)

  search-delete :
      (t : List ℕ) (n x : ℕ)
      → search cmp (delete cmp t n) x ≡ (if is_equal (cmp x n) then none else search cmp t x)
  search-delete [] n x = ground arith
  search-delete (m ∷ ms) n x =
      ground (arith, search-delete ms n x, eq.alike_left x n m, eq.alike x n m)

  search-assign :
      (t : List ℕ) (d n x : ℕ)
      → search cmp t d ≡ some n
      → search cmp (assign cmp t d) x ≡ (if is_equal (cmp x d) then some d else search cmp t x)
  search-assign [] d n x h = cc
  search-assign (m ∷ ms) d n x h =
      ground (arith, search-assign ms d n x, eq.alike_left x d m, eq.alike x d m)

  insert_new : (t : List ℕ) (d : ℕ) → search cmp t d ≡ none → insert cmp t d ≡ some (d ∷ t)
  insert_new t d h = ap (λ o. elim o [ none ↦ some (d ∷ t) | some _ ↦ none ]) h

  insert_old : (t : List ℕ) (d n : ℕ) → search cmp t d ≡ some n → insert cmp t d ≡ none
  insert_old t d n h = ap (λ o. elim o [ none ↦ some (d ∷ t) | some _ ↦ none ]) h

  list_tree-Searches : Searches list_tree cmp (λ t. Unit)
  list_tree-Searches = record {
    search_equal = λ t x n s h. is_equal_lem (cmp x n) (search_equal t x n h);
    search_same = λ t x d s h. search_same t x d (ap is_equal h);
    inserted_new = λ t d s h. (d ∷ t, insert_new t d h, tt, λ x. refl);
    inserted_old = λ t d n s h. insert_old t d n h;
    deleted = λ t d n s h. (tt, λ x. search-delete t n x);
    assigned = λ t d n s h. (tt, λ x. search-assign t d n x h);
  }

abbrev in_order : Keyname → List ℕ → List ℕ → Sign
in_order k a b = if is_reversed k then strcmp b a else strcmp a b

module _ {Rr : Type 0} (heap : ℕ → Dictionary Rr) (ix : Index Rr (List ℕ)) where
  abbrev text_of : ℕ → List ℕ
  text_of a = key_text ix.keyname (heap a)

  alike_texts : (a b : ℕ) → is_equal (order_at list_tree heap ix a b) ≡ true → text_of a ≡ text_of b
  alike_texts a b h = same_text ix.keyname (heap a) (heap b) (is_equal_lem _ h)

  in_order_self : (k : Keyname) (a : List ℕ) → is_equal (in_order k a a) ≡ true
  in_order_self k a = ground (arith, strcmp_refl a)

  order_at-Equates : Equates (order_at list_tree heap ix)
  order_at-Equates = record {
    self = λ a. in_order_self ix.keyname (text_of a);
    alike = λ x a b h. ap (λ t. is_equal (in_order ix.keyname (text_of x) t)) (alike_texts a b h);
    alike_left =
        λ a b x h. ap (λ t. is_equal (in_order ix.keyname t (text_of x))) (alike_texts a b h);
  }

-- The record a at address 0 in revision 1, and at address 1 in revision 2; address 2 is marked.
abbrev in_revision : ℕ → Dictionary Sample
in_revision n = record (recordcreate (some (97 ∷ []))) { revision = pos n }

abbrev two_revisions : ℕ → Dictionary Sample
two_revisions zero = in_revision 1
two_revisions (suc zero) = in_revision 2
two_revisions _ = record (in_revision 1) { marker = pos 1 }

abbrev one_upcoming : Index Sample (List ℕ)
one_upcoming = record { keyname = nameupcoming; tree = 0 ∷ []; acceptfunc = compareupcomingset }

laws : Searches list_tree (order_at list_tree two_revisions one_upcoming) (λ t. Unit)
laws =
    list_tree-Searches (order_at list_tree two_revisions one_upcoming)
      (order_at-Equates two_revisions one_upcoming)

-- Revision 2 takes the place of revision 1.
beside :
    (n : ℕ)
    → found list_tree two_revisions one_upcoming 1 ≡ some n
    → accept_at list_tree two_revisions one_upcoming 1 n ≡ verdict 1 equal
unfolding getset compareupcomingset recordcreate decimal
beside zero h = refl
beside (suc n) h = absurd (ground (arith, h))

indexinsert_lem_example :
    Inserts list_tree two_revisions one_upcoming
      (λ t. Unit)
      laws
      (indexinsert list_tree two_revisions one_upcoming 1)
      1
      (held_after two_revisions 1 1 1 (found list_tree two_revisions one_upcoming 1))
unfolding recordindexfunction compareupcomingset
indexinsert_lem_example =
    indexinsert_lem list_tree two_revisions one_upcoming (λ t. Unit) laws 1
      (record { code = 1; cmp = none }) (record { code = 1; cmp = some equal }) refl tt refl beside

holds_accepted : HoldsAccepted list_tree two_revisions one_upcoming (λ t. Unit) laws one_upcoming
unfolding compareupcomingset
holds_accepted x n h = (record { code = 1; cmp = none }, refl, λ z. omega arith)

indexinsert-HoldsAccepted_example :
    (rc : ℕ) × (ix' : Index Sample (List ℕ)) × (indexinsert list_tree two_revisions one_upcoming 1
      ≡ some (rc, ix'))
    × Unit {0}
    × HoldsAccepted list_tree two_revisions one_upcoming (λ t. Unit) laws ix'
unfolding recordindexfunction compareupcomingset
indexinsert-HoldsAccepted_example =
    indexinsert-HoldsAccepted list_tree two_revisions one_upcoming (λ t. Unit) laws 1
      (record { code = 1; cmp = none }) (record { code = 1; cmp = some equal }) refl tt
      holds_accepted refl beside

indexinsert_marked_stays_example :
    indexinsert list_tree two_revisions one_upcoming 2 ≡ some (0, one_upcoming)
unfolding getset recordcreate recordhasmarker
indexinsert_marked_stays_example =
    indexinsert_marked_stays list_tree two_revisions one_upcoming (λ t. Unit) laws 2 0 (97 ∷ [])
      refl tt refl refl refl refl refl
