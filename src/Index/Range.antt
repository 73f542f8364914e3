-- ===== src/Index/Range.antt =====
-- `names_indexrange` of index.c: the records from a name on downwards, as far as they match.
use volans.Prelude.{
  ℕ, ◌≡◌, ◌≢◌, refl, ap, ◌∙◌, Bool, true, false, ◌&&◌, Option, none, some, List, [], ◌∷◌, ◌++◌,
  ◌==◌, if◌then◌else◌, All, arith, Option-cases, inl, inr,
}
use volans.Record.{Dictionary}

-- strncmp of the whole of `find`.
abbrev pub is_prefix : List ℕ → List ℕ → Bool
is_prefix [] found = true
is_prefix (b ∷ bs) [] = false
is_prefix (b ∷ bs) (c ∷ cs) = (b == c) && is_prefix bs cs

-- The byte before the end of `find`; `none` is the byte before the text.
abbrev pub last_byte : List ℕ → Option ℕ
last_byte [] = none
last_byte (b ∷ []) = some b
last_byte (b ∷ c ∷ cs) = last_byte (c ∷ cs)

-- The test of the loop: behind a match of all of `find`, the last byte of it in the name that was
-- found has to be a dot, since it is not NUL. `none` is a byte before the text.
abbrev pub dot : ℕ
dot = 46

abbrev pub matches_last : Option ℕ → Option Bool
matches_last none = none
matches_last (some b) = some (b == dot)

abbrev pub matches : List ℕ → List ℕ → Option Bool
matches find name = if is_prefix find name then matches_last (last_byte find) else some false

abbrev pub push_found : ℕ → Option (List ℕ) → Option (List ℕ)
push_found r none = none
push_found r (some rs) = some (r ∷ rs)

prefix_rest :
    (find name : List ℕ) → is_prefix find name ≡ true → (more : List ℕ) × (name ≡ find ++ more)
prefix_rest [] name h = (name, refl)
prefix_rest (b ∷ bs) [] h = cc
prefix_rest (b ∷ bs) (c ∷ cs) h =
    let (more, e) = prefix_rest bs cs (ground (arith, h)) in (more, ground (arith, h, e))

matches_prefix : (find name : List ℕ) → matches find name ≡ some true → is_prefix find name ≡ true
matches_prefix find name h = ground (arith, h)

module _ {Rr : Type 0} (heap : ℕ → Dictionary Rr) (find : List ℕ) where
  abbrev pub kept_while : Option Bool → ℕ → Option (List ℕ) → Option (List ℕ)
  kept_while none r rest = none
  kept_while (some false) r rest = some []
  kept_while (some true) r rest = push_found r rest

  abbrev pub matched : Option (List ℕ) → Option Bool
  matched none = none
  matched (some name) = matches find name

  -- The `while` loop over the nodes from ldns_rbtree_find_less_equal on by ldns_rbtree_previous, as
  -- the records that its iterator holds. `none` is strncmp of NULL, or the byte before a text.
  unfoldable pub indexrange : List ℕ → Option (List ℕ)
  indexrange [] = some []
  indexrange (r ∷ rs) = kept_while (matched (heap r).name) r (indexrange rs)

  -- Without a dot at its end a name has no range, whatever the index holds. The first record of
  -- the range has a name.
  indexrange-dot :
      (r : ℕ) (rs : List ℕ) (b : ℕ)
      → last_byte find ≡ some b
      → b ≢ dot
      → (heap r).name ≢ none
      → indexrange (r ∷ rs) ≡ some []
  unfolding indexrange
  indexrange-dot r rs b l d n = elim (Option-cases (heap r).name) [
    | inl e ↦ absurd (n e)
    | inr (name, e) ↦ ground (arith, e, l, d)
  ]

  pub indexrange-no_dot :
      (nodes : List ℕ) (b : ℕ)
      → last_byte find ≡ some b
      → b ≢ dot
      → ((a : ℕ) → (heap a).name ≢ none)
      → indexrange nodes ≡ some []
  unfolding indexrange
  indexrange-no_dot [] b l d n = refl
  indexrange-no_dot (r ∷ rs) b l d n = indexrange-dot r rs b l d (n r)

  -- Every record of the range has a name that begins with the name that was asked for.
  abbrev Begins : ℕ → Type 0
  Begins r = (more : List ℕ) × ((heap r).name ≡ some (find ++ more))

  pub indexrange-Begins : (nodes rs : List ℕ) → indexrange nodes ≡ some rs → All Begins rs
  unfolding indexrange
  indexrange-Begins [] [] h = tt
  indexrange-Begins [] (x ∷ xs) h = cc
  indexrange-Begins (n ∷ nodes) rs h =
      by_name (heap n).name refl (indexrange nodes) (indexrange-Begins nodes) rs h
    where
      by_match :
          (name : List ℕ) (c : Option Bool)
          → (heap n).name ≡ some name
          → matches find name ≡ c
          → (rest : Option (List ℕ)) → ((rs : List ℕ) → rest ≡ some rs → All Begins rs)
          → (rs : List ℕ) → kept_while c n rest ≡ some rs
          → All Begins rs
      by_match name none e m rest ih rs h = cc
      by_match name (some false) e m rest ih [] h = tt
      by_match name (some false) e m rest ih (x ∷ xs) h = cc
      by_match name (some true) e m none ih rs h = cc
      by_match name (some true) e m (some l) ih [] h = cc
      by_match name (some true) e m (some l) ih (x ∷ xs) h =
          let (more, p) = prefix_rest find name (matches_prefix find name m) in
          let same : x ≡ n = cc h in
          let tail : l ≡ xs = cc h in
          ((more, ap (λ a. (heap a).name) same ∙ e ∙ ap some p), ih xs (ap some tail))

      by_name :
          (o : Option (List ℕ))
          → (heap n).name ≡ o
          → (rest : Option (List ℕ)) → ((rs : List ℕ) → rest ≡ some rs → All Begins rs)
          → (rs : List ℕ) → kept_while (matched o) n rest ≡ some rs
          → All Begins rs
      by_name none e rest ih rs h = cc
      by_name (some name) e rest ih rs h = by_match name (matches find name) e refl rest ih rs h
