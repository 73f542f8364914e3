-- ===== src/Commitlog/Chain/Views.antt =====
-- The queue of a view: what it has yet to see of the chain.
use volans.Prelude.{
  ℕ, zero, suc, ◌-◌, ◌≤◌, ◌<◌, ◌≡◌, refl, ap, none, some, List, [], ◌∷◌, ◌++◌, map, arith,
  get_elem?, set, length, drop, All,
}

abbrev pub queues : List ℕ → List ℕ → List (List ℕ)
queues chain offs = map (λ k. drop k chain) offs

pub get_elem?-queues :
    (chain offs : List ℕ) (v : ℕ) (q : List ℕ)
    → get_elem? (queues chain offs) v ≡ some q
    → (k : ℕ) × (get_elem? offs v ≡ some k) × (drop k chain ≡ q)
get_elem?-queues chain [] v q e = cc
get_elem?-queues chain (k ∷ ks) zero q e = (k, refl, cc)
get_elem?-queues chain (k ∷ ks) (suc v) q e = get_elem?-queues chain ks v q e

pub drop-nil : (chain : List ℕ) (k : ℕ) → drop k chain ≡ [] → get_elem? chain k ≡ none
drop-nil [] k e = refl
drop-nil (x ∷ xs) zero e = cc
drop-nil (x ∷ xs) (suc k) e = drop-nil xs k e

-- What is left of a chain begins at the place of its view.
pub drop-cons :
    (chain : List ℕ) (k x : ℕ) (q : List ℕ)
    → drop k chain ≡ x ∷ q
    → (get_elem? chain k ≡ some x)
      × (get_elem? chain (suc k) ≡ get_elem? q 0)
      × (drop (suc k) chain ≡ q)
      × (suc k ≤ length chain)
drop-cons [] zero x q e = cc
drop-cons [] (suc k) x q e = cc
drop-cons (y ∷ ys) zero x q e = ground arith
drop-cons (y ∷ ys) (suc k) x q e = let (a, b, c, d) = drop-cons ys k x q e in (a, b, c, omega arith)

drop-push :
    (chain : List ℕ) (k p : ℕ)
    → k ≤ length chain
    → drop k (chain ++ p ∷ []) ≡ drop k chain ++ p ∷ []
drop-push chain zero p h = refl
drop-push [] (suc k) p h = absurd (omega arith)
drop-push (x ∷ xs) (suc k) p h = drop-push xs k p (omega arith)

pub queues-push :
    (chain offs : List ℕ) (p : ℕ)
    → All (λ k. k ≤ length chain) offs
    → queues (chain ++ p ∷ []) offs ≡ map (λ q. q ++ p ∷ []) (queues chain offs)
queues-push chain [] p h = refl
queues-push chain (k ∷ ks) p h = rw (drop-push chain k p h.0, queues-push chain ks p h.1)

pub queues-set :
    (chain offs : List ℕ) (v k : ℕ)
    → queues chain (set offs v k) ≡ set (queues chain offs) v (drop k chain)
queues-set chain [] v k = refl
queues-set chain (j ∷ js) zero k = refl
queues-set chain (j ∷ js) (suc v) k = ap (λ r. drop j chain ∷ r) (queues-set chain js v k)

pub queues-tail :
    (x : ℕ) (xs offs : List ℕ)
    → All (λ k. 0 < k) offs
    → queues (x ∷ xs) offs ≡ queues xs (map (λ k. k - 1) offs)
queues-tail x xs [] h = refl
queues-tail x xs (zero ∷ ks) h = absurd (omega arith)
queues-tail x xs (suc k ∷ ks) h =
    let e : suc k - 1 ≡ k = omega arith in rw (e, queues-tail x xs ks h.1)
