-- ===== src/Commitlog/Push.antt =====
-- The second half of `names_commitlogpoppush`: the submitted change log goes behind the last one.
use volans.Prelude.{
  ℕ, ◌+◌, ◌≤◌, ◌<◌, ◌≡◌, ◌≢◌, refl, false, Option, none, some, List, [], ◌∷◌, ◌++◌, arith,
  if◌then◌else◌, get_elem?, length, All, All-append, All-map, length-append,
}
use volans.Commitlog.{Commitlog, update, push}
use volans.Commitlog.Chain.{
  Represents, cursors, Linked, last_of, Linked-update, last_of-ne, Linked-push, last_of-push,
  Distinct-push, last_of-cons, lead-cursors,
}

-- A table that may be submitted: created before, outside the chain, with no successor.
pub record IsSubmittable (c : Commitlog) (chain : List ℕ) (p : ℕ) : Type 0 where
  pub created : p < c.fresh
  pub apart : All (λ x. x ≢ p) chain
  pub unlinked : c.next p ≡ none

-- The state after a push.
abbrev pub pushed : Commitlog → List (Option ℕ) → Option ℕ → Option ℕ → ℕ → Commitlog
pushed c views first last p = record {
  views = views;
  firstchangelog = elim first [ none ↦ some p | some f ↦ some f ];
  lastchangelog = some p;
  next = elim last [
    | none ↦ update c.next c.fresh none
    | some l ↦ update (update c.next c.fresh none) l (some p)
  ];
  fresh = c.fresh + 1;
  destroyed = c.destroyed;
  has_store = c.has_store;
  stored = if c.has_store then p ∷ c.stored else c.stored;
}

pub push_eq :
    (c : Commitlog) (chain offs : List ℕ) (v p : ℕ)
    → Represents c chain offs
    → IsSubmittable c chain p
    → get_elem? c.views v ≡ some none
    → push v (record { previouslog = none; submitlog = some p; log = c })
      ≡ some (
        false,
        record {
          previouslog = some p;
          submitlog = some c.fresh;
          log = pushed c (cursors (chain ++ p ∷ []) offs) (get_elem? chain 0) (last_of chain) p;
        },
      )
unfolding push
push_eq c [] offs v p r s h =
    ground (arith, r.first, r.last, r.views, lead-cursors [] offs v p 0 v, r.within)
push_eq c (x ∷ xs) offs v p r s h =
    let (l, e) = last_of-cons x xs in
    ground (
      arith,
      e,
      last_of-ne (x ∷ xs) l p e s.apart,
      r.first,
      r.last,
      r.views,
      lead-cursors (x ∷ xs) offs v p 0 v,
      r.within,
    )

-- Tables created before are not at the fresh address.
pub ne-fresh : (chain : List ℕ) (n : ℕ) → All (λ x. x < n) chain → All (λ x. x ≢ n) chain
ne-fresh chain n = All-map (λ x. x < n) (λ x. x ≢ n) chain (λ x h. omega arith)

first_push :
    (c : Commitlog) (chain : List ℕ) (p : ℕ)
    → (pushed c [] (get_elem? chain 0) (last_of chain) p).firstchangelog
      ≡ get_elem? (chain ++ p ∷ []) 0
first_push c [] p = refl
first_push c (x ∷ xs) p = refl

Linked-pushed :
    (c : Commitlog) (chain offs : List ℕ) (p : ℕ) (last : Option ℕ)
    → Represents c chain offs
    → IsSubmittable c chain p
    → last_of chain ≡ last
    → Linked (pushed c [] (get_elem? chain 0) last p).next (chain ++ p ∷ [])
Linked-pushed c [] offs p none r s e = (ground (arith, s.unlinked, s.created), tt)
Linked-pushed c [] offs p (some l) r s e = cc
Linked-pushed c (x ∷ xs) offs p none r s e = let (l, e') = last_of-cons x xs in cc (e, e')
Linked-pushed c (x ∷ xs) offs p (some l) r s e =
    let n = update c.next c.fresh none in
    Linked-push n (x ∷ xs) l p e (ground (arith, s.unlinked, s.created)) s.apart r.distinct
      (Linked-update c.next (x ∷ xs) c.fresh none (ne-fresh (x ∷ xs) c.fresh r.created) r.linked)

pub push-Represents :
    (c : Commitlog) (chain offs : List ℕ) (p : ℕ)
    → Represents c chain offs
    → IsSubmittable c chain p
    → Represents
        (pushed c (cursors (chain ++ p ∷ []) offs) (get_elem? chain 0) (last_of chain) p)
        (chain ++ p ∷ [])
        offs
push-Represents c chain offs p r s = record {
  views = refl;
  first = first_push c chain p;
  last = ground (arith, last_of-push chain p);
  linked = Linked-pushed c chain offs p (last_of chain) r s refl;
  distinct = Distinct-push chain p s.apart r.distinct;
  created =
      All-append (λ x. x < c.fresh + 1) chain (p ∷ [])
        (All-map (λ x. x < c.fresh) (λ x. x < c.fresh + 1) chain (λ x h. omega arith) r.created)
        (omega (arith, s.created), tt);
  within =
      All-map (λ k. k ≤ length chain) (λ k. k ≤ length (chain ++ p ∷ [])) offs
        (λ x h. omega (arith, length-append chain (p ∷ []))) r.within;
}

-- The new table is one that may be submitted next.
pub pushed-IsSubmittable :
    (c : Commitlog) (chain offs : List ℕ) (p : ℕ)
    → Represents c chain offs
    → IsSubmittable c chain p
    → IsSubmittable
        (pushed c (cursors (chain ++ p ∷ []) offs) (get_elem? chain 0) (last_of chain) p)
        (chain ++ p ∷ [])
        c.fresh
pushed-IsSubmittable c chain offs p r s = record {
  created = omega arith;
  apart =
      All-append (λ x. x ≢ c.fresh) chain (p ∷ []) (ne-fresh chain c.fresh r.created)
        (omega (arith, s.created), tt);
  unlinked = unlinked_fresh (last_of chain) refl;
}
  where
    unlinked_fresh :
        (last : Option ℕ)
        → last_of chain ≡ last
        → (pushed c [] (get_elem? chain 0) last p).next c.fresh ≡ none
    unlinked_fresh none e = ground arith
    unlinked_fresh (some l) e =
        ground (arith, last_of-ne chain l c.fresh e (ne-fresh chain c.fresh r.created))
