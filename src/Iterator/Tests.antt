-- ===== src/Iterator/Tests.antt =====
-- An iterator over three numbers.
use volans.Prelude.{ℕ, ◌≡◌, none, some, [], ◌∷◌, arith}
use volans.Iterator.{Iterator, iterator_create, walk, adds}
use volans.Iterator.Walk.{walk-adds}

walk-adds_example :
    (it : Iterator ℕ) × (adds iterator_create (7 ∷ 8 ∷ 9 ∷ []) ≡ some it)
    × (walk 4 (some it) ≡ some (7 ∷ 8 ∷ 9 ∷ [], none))
walk-adds_example = walk-adds (7 ∷ 8 ∷ 9 ∷ []) 4 (omega arith)
