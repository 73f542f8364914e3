-- ===== src/Commitlog/Chain/Cursors.antt =====
-- The places of the views.
use volans.Prelude.{
  ℕ, zero, suc, ◌+◌, ◌-◌, ◌≤◌, ◌<◌, ◌≡◌, ◌≢◌, refl, ap, false, Option, none, some, List, [], ◌∷◌,
  ◌++◌, map, arith, get_elem?, set, length, All,
}
use volans.Commitlog.{any_at, lead}

-- The place at which a view stands that has passed `k` change logs.
abbrev pub cursors : List ℕ → List ℕ → List (Option ℕ)
cursors chain offs = map (get_elem? chain) offs

get_elem?-lt : (chain : List ℕ) (k : ℕ) → k < length chain → (x : ℕ) × (get_elem? chain k ≡ some x)
get_elem?-lt [] k h = absurd (omega arith)
get_elem?-lt (x ∷ xs) zero h = (x, refl)
get_elem?-lt (x ∷ xs) (suc k) h = get_elem?-lt xs k (omega arith)

pub get_elem?-length : (chain : List ℕ) (k : ℕ) → length chain ≤ k → get_elem? chain k ≡ none
get_elem?-length [] k h = refl
get_elem?-length (x ∷ xs) zero h = absurd (omega arith)
get_elem?-length (x ∷ xs) (suc k) h = get_elem?-length xs k (omega arith)

pub length_of_none :
    (chain : List ℕ) (k : ℕ) → get_elem? chain k ≡ none → k ≤ length chain → k ≡ length chain
length_of_none [] k e h = omega arith
length_of_none (x ∷ xs) zero e h = cc
length_of_none (x ∷ xs) (suc k) e h = ap suc (length_of_none xs k e (omega arith))

abbrev or_some : ℕ → Option ℕ → Option ℕ
or_some p none = some p
or_some p (some x) = some x

-- A longer chain is the same where it was, and ends in `p`.
pub get_elem?-push :
    (chain : List ℕ) (p k : ℕ)
    → k ≤ length chain
    → get_elem? (chain ++ p ∷ []) k ≡ or_some p (get_elem? chain k)
get_elem?-push [] p zero h = refl
get_elem?-push [] p (suc k) h = absurd (omega arith)
get_elem?-push (y ∷ ys) p zero h = refl
get_elem?-push (y ∷ ys) p (suc k) h = get_elem?-push ys p k (omega arith)

pub get_elem?-map :
    (chain offs : List ℕ) (v : ℕ) (cursor : Option ℕ)
    → get_elem? (cursors chain offs) v ≡ some cursor
    → (k : ℕ) × (get_elem? offs v ≡ some k) × (get_elem? chain k ≡ cursor)
get_elem?-map chain [] v cursor e = cc
get_elem?-map chain (k ∷ ks) zero cursor e = (k, refl, cc)
get_elem?-map chain (k ∷ ks) (suc v) cursor e = get_elem?-map chain ks v cursor e

pub set-cursors :
    (chain offs : List ℕ) (v k : ℕ)
    → set (cursors chain offs) v (get_elem? chain k) ≡ cursors chain (set offs v k)
set-cursors chain [] v k = refl
set-cursors chain (j ∷ js) zero k = refl
set-cursors chain (j ∷ js) (suc v) k = ap (λ r. get_elem? chain j ∷ r) (set-cursors chain js v k)

-- The loop of a push leads exactly the views that have passed the whole chain to the new table.
lead_past :
    (chain offs : List ℕ) (v p i : ℕ)
    → v < i
    → All (λ k. k ≤ length chain) offs
    → lead v p i (cursors chain offs) ≡ some (cursors (chain ++ p ∷ []) offs)
unfolding lead
lead_past chain [] v p i h w = refl
lead_past chain (k ∷ ks) v p i h w =
    ground (arith, lead_past chain ks v p (suc i) (omega arith) w.1, get_elem?-push chain p k w.0)

pub lead-cursors :
    (chain offs : List ℕ) (v p i j : ℕ)
    → get_elem? (cursors chain offs) j ≡ some none
    → i + j ≡ v
    → All (λ k. k ≤ length chain) offs
    → lead v p i (cursors chain offs) ≡ some (cursors (chain ++ p ∷ []) offs)
unfolding lead
lead-cursors chain [] v p i j h e w = cc
lead-cursors chain (k ∷ ks) v p i zero h e w =
    ground (arith, lead_past chain ks v p (suc i) (omega arith) w.1, get_elem?-push chain p k w.0)
lead-cursors chain (k ∷ ks) v p i (suc j) h e w =
    ground
      (arith, lead-cursors chain ks v p (suc i) j h (omega arith) w.1, get_elem?-push chain p k w.0)

-- A view stands at the first table exactly if it has passed nothing.
pub any_at-cursors :
    (x : ℕ) (xs offs : List ℕ)
    → All (λ y. y ≢ x) xs
    → any_at (cursors (x ∷ xs) offs) x ≡ false
    → All (λ k. 0 < k) offs
unfolding any_at
any_at-cursors x xs [] d h = tt
any_at-cursors x xs (zero ∷ ks) d h = absurd (ground arith)
any_at-cursors x xs (suc k ∷ ks) d h = (omega arith, any_at-cursors x xs ks d (ground arith))

-- Then the chain without its first table has the views where they were.
pub cursors-tail :
    (x : ℕ) (xs offs : List ℕ)
    → All (λ k. 0 < k) offs
    → cursors (x ∷ xs) offs ≡ cursors xs (map (λ k. k - 1) offs)
cursors-tail x xs [] h = refl
cursors-tail x xs (zero ∷ ks) h = absurd (omega arith)
cursors-tail x xs (suc k ∷ ks) h =
    let e : suc k - 1 ≡ k = omega arith in rw (e, cursors-tail x xs ks h.1)
