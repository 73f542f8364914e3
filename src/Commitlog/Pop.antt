-- ===== src/Commitlog/Pop.antt =====
-- The first half of `names_commitlogpoppush`, and `names_commitlogrelease`.
use volans.Prelude.{
  ℕ, suc, ◌-◌, ◌≤◌, ◌<◌, ◌≡◌, ◌≢◌, refl, false, ◌⊎◌, inl, inr, none, some, List, [], ◌∷◌, map,
  arith, get_elem?, set, length, ◌∙◌, sym, subst, All, All-set, Bool-cases,
}
use volans.Commitlog.{Commitlog, same, any_at, release}
use volans.Commitlog.Chain.{
  Represents, cursors, queues, last_of, next-Linked, any_at-cursors, cursors-tail, queues-tail,
  set-cursors,
}
use volans.Commitlog.Push.{IsSubmittable}

-- What a step that takes nothing from the queues leaves: the same queues over a chain in which
-- every change log that was not destroyed still stands.
pub record Keeps (c c' : Commitlog) (chain offs : List ℕ) (x : ℕ) : Type 0 where
  pub chain' : List ℕ
  pub offs' : List ℕ
  pub represents : Represents c' chain' offs'
  pub queues' : queues chain' offs' ≡ queues chain offs
  pub apart : (p : ℕ) → IsSubmittable c chain p → IsSubmittable c' chain' p
  pub destroyed :
      (c'.destroyed ≡ c.destroyed) ⊎ ((c'.destroyed ≡ x ∷ c.destroyed) × All (λ y. y ≢ x) chain')

unchanged :
    (c : Commitlog) (chain offs : List ℕ) (x : ℕ) → Represents c chain offs → Keeps c c chain offs x
unchanged c chain offs x r = record {
  chain' = chain;
  offs' = offs;
  represents = r;
  queues' = refl;
  apart = λ p s. s;
  destroyed = inl refl;
}

within_tail :
    (n : ℕ) (offs : List ℕ) → All (λ k. k ≤ suc n) offs → All (λ k. k ≤ n) (map (λ k. k - 1) offs)
within_tail n [] h = tt
within_tail n (k ∷ ks) h = (omega (arith, h.0), within_tail n ks h.1)

-- Dropping the first change log, at which no view stands.
abbrev dropped : Commitlog → ℕ → Commitlog
dropped c x = record c {
  firstchangelog = c.next x;
  lastchangelog = elim (c.next x) [ none ↦ none | some _ ↦ c.lastchangelog ];
  destroyed = x ∷ c.destroyed;
}

last_dropped :
    (c : Commitlog) (x : ℕ) (xs : List ℕ)
    → c.next x ≡ get_elem? xs 0
    → c.lastchangelog ≡ last_of (x ∷ xs)
    → (dropped c x).lastchangelog ≡ last_of xs
last_dropped c x [] n l = rw n
last_dropped c x (y ∷ ys) n l = rw n l

drop_first :
    (c : Commitlog) (x : ℕ) (xs offs : List ℕ)
    → Represents c (x ∷ xs) offs
    → All (λ k. 0 < k) offs
    → Keeps c (dropped c x) (x ∷ xs) offs x
drop_first c x xs offs r h = record {
  chain' = xs;
  offs' = map (λ k. k - 1) offs;
  represents = record {
    views = r.views ∙ cursors-tail x xs offs h;
    first = r.linked.0;
    last = last_dropped c x xs r.linked.0 r.last;
    linked = r.linked.1;
    distinct = r.distinct.1;
    created = r.created.1;
    within = within_tail (length xs) offs r.within;
  };
  queues' = sym (queues-tail x xs offs h);
  apart = λ p s. record { created = s.created; apart = s.apart.1; unlinked = s.unlinked };
  destroyed = inr (refl, r.distinct.0);
}

release-cases :
    (c : Commitlog) (x : ℕ)
    → (release c x ≡ c)
      ⊎ ((release c x ≡ dropped c x) × (c.firstchangelog ≡ some x) × (any_at c.views x ≡ false))
unfolding release
release-cases c x = elim (Bool-cases (same c.firstchangelog x)) [
  | inl first ↦ elim (Bool-cases (any_at c.views x)) [
    | inl stays ↦ inl (rw (first, stays))
    | inr free ↦ inr (rw (first, free), ground arith, free)
  ]
  | inr other ↦ inl (rw other)
]

-- Releasing a change log changes no queue, and destroys it only if it stands in none.
pub release-Keeps :
    (c : Commitlog) (chain offs : List ℕ) (x : ℕ)
    → Represents c chain offs
    → Keeps c (release c x) chain offs x
release-Keeps c [] offs x r = elim (release-cases c x) [
  | inl e ↦ subst (λ c'. Keeps c c' [] offs x) (sym e) (unchanged c [] offs x r)
  | inr (e, f, g) ↦ cc r.first
]
release-Keeps c (y ∷ ys) offs x r = elim (release-cases c x) [
  | inl e ↦ subst (λ c'. Keeps c c' (y ∷ ys) offs x) (sym e) (unchanged c (y ∷ ys) offs x r)
  | inr (e, f, g) ↦
      let same_table : y ≡ x = cc r.first in
      let free : any_at (cursors (y ∷ ys) offs) y ≡ false = cc (r.views) in
      subst (λ c'. Keeps c c' (y ∷ ys) offs x) (sym e)
        (subst (λ z. Keeps c (dropped c z) (y ∷ ys) offs z) same_table
          (drop_first c y ys offs r (any_at-cursors y ys offs r.distinct.0 free)))
]

-- The view passes the change log at which it stands.
pub moved-Represents :
    (c : Commitlog) (chain offs : List ℕ) (v k x : ℕ)
    → Represents c chain offs
    → get_elem? chain k ≡ some x
    → suc k ≤ length chain
    → Represents (record c { views = set c.views v (c.next x) }) chain (set offs v (suc k))
moved-Represents c chain offs v k x r e h = record {
  views = rw (r.views, next-Linked c.next chain k x r.linked e) (set-cursors chain offs v (suc k));
  first = r.first;
  last = r.last;
  linked = r.linked;
  distinct = r.distinct;
  created = r.created;
  within = All-set (λ j. j ≤ length chain) offs v (suc k) h r.within;
}
