-- ===== src/Commitlog/Chain/Lists.antt =====
-- Tables linked over `next`.
use volans.Prelude.{
  ℕ, zero, suc, ◌≡◌, ◌≢◌, refl, Option, none, some, List, [], ◌∷◌, ◌++◌, arith, get_elem?, All,
  All-append, sym,
}
use volans.Commitlog.{update}

abbrev pub last_of : List ℕ → Option ℕ
last_of [] = none
last_of (x ∷ []) = some x
last_of (x ∷ y ∷ xs) = last_of (y ∷ xs)

abbrev pub Linked : (ℕ → Option ℕ) → List ℕ → Type 0
Linked next [] = Unit
Linked next (x ∷ xs) = (next x ≡ get_elem? xs 0) × Linked next xs

abbrev pub Distinct : List ℕ → Type 0
Distinct [] = Unit
Distinct (x ∷ xs) = All (λ y. y ≢ x) xs × Distinct xs

pub next-Linked :
    (next : ℕ → Option ℕ) (chain : List ℕ) (k x : ℕ)
    → Linked next chain
    → get_elem? chain k ≡ some x
    → next x ≡ get_elem? chain (suc k)
next-Linked next [] k x h e = cc
next-Linked next (y ∷ ys) zero x h e = ground (arith, h.0)
next-Linked next (y ∷ ys) (suc k) x h e = next-Linked next ys k x h.1 e

-- A write to a table outside the chain.
pub Linked-update :
    (next : ℕ → Option ℕ) (chain : List ℕ) (k : ℕ) (v : Option ℕ)
    → All (λ x. x ≢ k) chain
    → Linked next chain
    → Linked (update next k v) chain
Linked-update next [] k v h l = tt
Linked-update next (x ∷ xs) k v h l = (ground (arith, h.0, l.0), Linked-update next xs k v h.1 l.1)

pub last_of-ne :
    (chain : List ℕ) (l x : ℕ) → last_of chain ≡ some l → All (λ y. y ≢ x) chain → l ≢ x
last_of-ne [] l x e h = cc
last_of-ne (y ∷ []) l x e h = ground (arith, h.0)
last_of-ne (y ∷ z ∷ zs) l x e h = last_of-ne (z ∷ zs) l x e h.1

-- The table `p` behind the last one `l`.
pub Linked-push :
    (next : ℕ → Option ℕ) (chain : List ℕ) (l p : ℕ)
    → last_of chain ≡ some l
    → next p ≡ none
    → All (λ x. x ≢ p) chain
    → Distinct chain
    → Linked next chain
    → Linked (update next l (some p)) (chain ++ p ∷ [])
Linked-push next [] l p e n f d h = cc
Linked-push next (x ∷ []) l p e n f d h = (ground arith, (ground (arith, f.0), tt))
Linked-push next (x ∷ y ∷ ys) l p e n f d h = (
  ground (arith, h.0, last_of-ne (y ∷ ys) l x e d.0),
  Linked-push next (y ∷ ys) l p e n f.1 d.1 h.1,
)

pub last_of-push : (chain : List ℕ) (p : ℕ) → last_of (chain ++ p ∷ []) ≡ some p
last_of-push [] p = ground arith
last_of-push (x ∷ []) p = ground arith
last_of-push (x ∷ y ∷ ys) p = last_of-push (y ∷ ys) p

pub Distinct-push :
    (chain : List ℕ) (p : ℕ) → All (λ x. x ≢ p) chain → Distinct chain → Distinct (chain ++ p ∷ [])
Distinct-push [] p f d = (tt, tt)
Distinct-push (x ∷ xs) p f d =
    (All-append (λ y. y ≢ x) xs (p ∷ []) d.0 ((λ e. f.0 (sym e)), tt), Distinct-push xs p f.1 d.1)

pub last_of-cons : (x : ℕ) (xs : List ℕ) → (l : ℕ) × (last_of (x ∷ xs) ≡ some l)
last_of-cons x [] = (x, refl)
last_of-cons x (y ∷ ys) = last_of-cons y ys
