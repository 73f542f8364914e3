-- ===== src/Index/Searches.antt =====
-- What index.c relies on of the red-black tree of ldns, and the trees that hold something else for
-- one record.
use volans.Prelude.{
  ℕ, ◌≡◌, refl, sym, ◌∙◌, ap, true, inl, inr, Option, none, some, if◌then◌else◌, arith, Bool-cases,
}
use volans.Text.{Sign, less, equal, greater, is_equal, strcmp}
use volans.Text.Decimal.{strcmp_eq}
use volans.Record.{Dictionary}
use volans.Record.Keys.{Keyname}
use volans.Record.Ordering.{order, key_text, is_reversed}
use volans.Index.{Rbtree}

-- What ldns documents of its tree, for one comparison: a tree sorted by it is a map from records
-- that differ to records, and stays so.
pub record Searches {Tree : Type 0} (rb : Rbtree Tree) (cmp : ℕ → ℕ → Sign)
    (IsSorted : Tree → Type 0) : Type 0 where
  pub search_equal :
      (t : Tree) (x n : ℕ) → IsSorted t → rb.search cmp t x ≡ some n → cmp x n ≡ equal
  pub search_same :
      (t : Tree) (x d : ℕ) → IsSorted t → cmp x d ≡ equal → rb.search cmp t x ≡ rb.search cmp t d
  pub inserted_new :
      (t : Tree) (d : ℕ)
      → IsSorted t
      → rb.search cmp t d ≡ none
      → (t' : Tree) × (rb.insert cmp t d ≡ some t')
        × IsSorted t'
        × ((x : ℕ)
            → rb.search cmp t' x ≡ (if is_equal (cmp x d) then some d else rb.search cmp t x))
  pub inserted_old :
      (t : Tree) (d n : ℕ) → IsSorted t → rb.search cmp t d ≡ some n → rb.insert cmp t d ≡ none
  pub deleted :
      (t : Tree) (d n : ℕ)
      → IsSorted t
      → rb.search cmp t d ≡ some n
      → IsSorted (rb.delete cmp t n)
        × ((x : ℕ)
            → rb.search cmp (rb.delete cmp t n) x
              ≡ (if is_equal (cmp x n) then none else rb.search cmp t x))
  pub assigned :
      (t : Tree) (d n : ℕ)
      → IsSorted t
      → rb.search cmp t d ≡ some n
      → IsSorted (rb.assign cmp t d)
        × ((x : ℕ)
            → rb.search cmp (rb.assign cmp t d) x
              ≡ (if is_equal (cmp x d) then some d else rb.search cmp t x))

pub is_equal_lem : (s : Sign) → is_equal s ≡ true → s ≡ equal
is_equal_lem less h = cc
is_equal_lem equal h = refl
is_equal_lem greater h = cc

module _ {Rr : Type 0} where
  -- Records that compare equal have the same text.
  pub same_text :
      (k : Keyname) (a b : Dictionary Rr) → order k a b ≡ equal → key_text k a ≡ key_text k b
  same_text k a b h = elim (Bool-cases (is_reversed k)) [
    | inl e ↦ sym (strcmp_eq (key_text k b) (key_text k a) (ground (arith, e, h)))
    | inr e ↦ strcmp_eq (key_text k a) (key_text k b) (ground (arith, e, h))
  ]

  pub order_same :
      (k : Keyname) (x a b : Dictionary Rr) → order k a b ≡ equal → order k x a ≡ order k x b
  order_same k x a b h =
      ap (λ t. if is_reversed k then strcmp t (key_text k x) else strcmp (key_text k x) t)
        (same_text k a b h)

-- A comparison that does not tell equal records apart.
abbrev pub Agrees : (ℕ → ℕ → Sign) → Type 0
Agrees cmp = (x a b : ℕ) → cmp a b ≡ equal → cmp x a ≡ cmp x b

module _ {Tree : Type 0} (rb : Rbtree Tree) (cmp : ℕ → ℕ → Sign) (IsSorted : Tree → Type 0)
    (laws : Searches rb cmp IsSorted) where
  -- `t'` is sorted, and holds `o` for the records that equal `d` and otherwise what `t` holds.
  abbrev pub Holds : Tree → Tree → ℕ → Option ℕ → Type 0
  Holds t t' d o =
      IsSorted t'
      × ((x : ℕ) → rb.search cmp t' x ≡ (if is_equal (cmp x d) then o else rb.search cmp t x))

  pub Holds_same :
      (t : Tree) (d : ℕ) (o : Option ℕ) → IsSorted t → rb.search cmp t d ≡ o → Holds t t d o
  Holds_same t d o s e = (s, λ x. at x)
    where
      at : (x : ℕ) → rb.search cmp t x ≡ (if is_equal (cmp x d) then o else rb.search cmp t x)
      at x = elim (Bool-cases (is_equal (cmp x d))) [
        | inl h ↦ rw h (laws.search_same t x d s (is_equal_lem (cmp x d) h) ∙ e)
        | inr h ↦ rw h refl
      ]

  pub Holds-delete :
      (t : Tree) (d n : ℕ)
      → Agrees cmp
      → IsSorted t
      → rb.search cmp t d ≡ some n
      → Holds t (rb.delete cmp t n) d none
  Holds-delete t d n agrees s e =
      let (s', all) = laws.deleted t d n s e in
      (
        s',
        λ x.
            all x
            ∙ ap (λ c. if is_equal c then none else rb.search cmp t x)
                (sym (agrees x d n (laws.search_equal t d n s e))),
      )
