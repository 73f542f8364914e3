-- ===== src/Iterator/Walk.antt =====
-- Additions to an iterator, and the walk over it.
use volans.Prelude.{
  ℕ, zero, suc, ◌*◌, ◌≤◌, ◌<◌, ◌≡◌, refl, sym, ◌∙◌, ap, true, ◌⊎◌, inl, inr, none, some, List, [],
  ◌∷◌, ◌++◌, append_assoc, append-nil, length, length-append, ltb, get_elem?, drop, ◌==◌,
  if◌then◌else◌, arith, Option-cases,
}
use volans.Iterator.{
  Iterator, iterator_create, iterator_add, iterator_addall, iterate, advance, here, seen, walk,
  adds,
}

abbrev grown : ℕ → ℕ → ℕ
grown count most = if count == most then most * 2 else most

grown_lem : (count most : ℕ) → count ≤ most → 0 < most → count < grown count most
grown_lem count most h p = ground arith

module _ {A : Type 0} where
  -- The items fit into the array, which is not empty.
  pub record IsRoomy (it : Iterator A) : Type 0 where
    pub fits : length it.items ≤ it.itemmax
    pub nonempty : 0 < it.itemmax

  -- An addition to an iterator, whose array has room for some items and for those it holds,
  -- succeeds, puts the item behind the others, does not move the walk, and leaves the iterator so.
  pub iterator_add-IsRoomy :
      (it : Iterator A) (x : A)
      → IsRoomy it
      → (it' : Iterator A) × (iterator_add it x ≡ some it')
        × (it'.items ≡ it.items ++ x ∷ [])
        × (it'.itemidx ≡ it.itemidx)
        × IsRoomy it'
  unfolding iterator_add
  iterator_add-IsRoomy it x r =
      let larger = grown_lem (length it.items) it.itemmax r.fits r.nonempty in
      let within : ltb (length it.items) (grown (length it.items) it.itemmax) ≡ true =
        ground arith in
      (
        record it { items = it.items ++ x ∷ []; itemmax = grown (length it.items) it.itemmax },
        ground (arith, within),
        refl,
        refl,
        record {
          fits = omega (arith, length-append it.items (x ∷ []), larger);
          nonempty = omega (arith, larger);
        },
      )

  at_index :
      (xs : List A) (i : ℕ)
      → ((get_elem? xs i ≡ none) × (drop i xs ≡ []))
        ⊎ ((x : A) × (get_elem? xs i ≡ some x) × (drop i xs ≡ x ∷ drop (suc i) xs))
  at_index [] zero = inl (refl, refl)
  at_index [] (suc i) = inl (refl, refl)
  at_index (x ∷ xs) zero = inr (x, refl, refl)
  at_index (x ∷ xs) (suc i) = at_index xs i

  -- Advancing past the end is the end of the walk.
  walk-here : (fuel : ℕ) (it : Iterator A) → walk fuel (here it).1 ≡ walk fuel (some it)
  unfolding walk iterate
  walk-here zero it = refl
  walk-here (suc fuel) it = elim (Option-cases (get_elem? it.items it.itemidx)) [
    | inl e ↦ ground (arith, e)
    | inr (x, e) ↦ ground (arith, e)
  ]

  first_seen :
      (fuel : ℕ) (it : Iterator A) (x : A)
      → get_elem? it.items it.itemidx ≡ some x
      → walk (suc fuel) (some it)
        ≡ seen x (walk fuel (here (record it { itemidx = suc it.itemidx })).1)
  unfolding walk iterate advance
  first_seen fuel it x e = ground (arith, e)

  none_seen :
      (fuel : ℕ) (it : Iterator A)
      → get_elem? it.items it.itemidx ≡ none
      → walk (suc fuel) (some it) ≡ some ([], none)
  unfolding walk iterate
  none_seen fuel it e = ground (arith, e)

  walk-drop :
      (fuel : ℕ) (it : Iterator A)
      → length (drop it.itemidx it.items) < fuel
      → walk fuel (some it) ≡ some (drop it.itemidx it.items, none)
  walk-drop zero it h = absurd (omega arith)
  walk-drop (suc fuel) it h = elim (at_index it.items it.itemidx) [
    | inl (e, d) ↦ none_seen fuel it e ∙ ap (λ r. some (r, none)) (sym d)
    | inr (x, e, d) ↦
        let it' = record it { itemidx = suc it.itemidx } in
        let shorter : length (drop (suc it.itemidx) it.items) < fuel = omega (arith, ap length d) in
        first_seen fuel it x e
        ∙ ap (seen x) (walk-here fuel it' ∙ walk-drop fuel it' shorter)
        ∙ ap (λ r. some (r, none)) (sym d)
  ]

  adds_lem :
      (it : Iterator A) (xs : List A)
      → IsRoomy it
      → (it' : Iterator A) × (adds it xs ≡ some it')
        × (it'.items ≡ it.items ++ xs)
        × (it'.itemidx ≡ it.itemidx)
  adds_lem it [] r = (it, refl, sym (append-nil it.items), refl)
  adds_lem it (x ∷ xs) r =
      let (it1, added, items, idx, r1) = iterator_add-IsRoomy it x r in
      let (it', all, items', idx') = adds_lem it1 xs r1 in
      (
        it',
        ground (arith, added, all),
        items' ∙ ap (λ l. l ++ xs) items ∙ append_assoc it.items (x ∷ []) xs,
        idx' ∙ idx,
      )

  -- After any number of additions to a new iterator a walk sees the added items, each once and in
  -- their order, and frees the iterator. One round for each item and one more are enough.
  pub walk-adds :
      (xs : List A) (fuel : ℕ)
      → length xs < fuel
      → (it : Iterator A) × (adds iterator_create xs ≡ some it)
        × (walk fuel (some it) ≡ some (xs, none))
  walk-adds xs fuel h =
      let (it, all, items, idx) =
        adds_lem iterator_create xs
          (unfold iterator_create in record { fits = omega arith; nonempty = omega arith }) in
      let whole : drop it.itemidx it.items ≡ xs = unfold iterator_create in rw (idx, items) refl in
      (it, all, walk-drop fuel it (omega (arith, ap length whole)) ∙ ap (λ r. some (r, none)) whole)

  -- After an empty array was added to a new iterator by names_iterator_addall, one
  -- names_iterator_add writes beyond the array.
  pub iterator_addall_nothing :
      (x : A)
      → (it : Iterator A) × (iterator_addall iterator_create [] ≡ some it)
        × (iterator_add it x ≡ none)
  unfolding iterator_addall iterator_create iterator_add
  iterator_addall_nothing x = (record { items = []; itemmax = 0; itemidx = 0 }, refl, refl)
