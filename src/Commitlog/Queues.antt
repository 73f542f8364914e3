-- ===== src/Commitlog/Queues.antt =====
-- `names_commitlogpoppush`, seen as a queue of change logs for each view: handing them out.
use volans.Prelude.{
  ℕ, zero, suc, ◌≡◌, ◌≢◌, refl, ◌∙◌, ap, true, false, Option, none, some, List, [], ◌∷◌, arith,
  get_elem?, set, drop, All,
}
use volans.Commitlog.{Commitlog, Popped, same, advance, pop, push, poppush, release}
use volans.Commitlog.Chain.{
  Represents, cursors, queues, next-Linked, get_elem?-queues, drop-nil, drop-cons, queues-set,
}
use volans.Commitlog.Push.{IsSubmittable}
use volans.Commitlog.Pop.{release-Keeps, moved-Represents}

-- `qs` holds for each view, by its number, the change logs that it has yet to see, the oldest
-- first. `submit` is the table that the caller may submit: in no queue, and without a successor.
pub record Queued (c : Commitlog) (qs : List (List ℕ)) (submit : Option ℕ) : Type 0 where
  pub chain : List ℕ
  pub offs : List ℕ
  pub represents : Represents c chain offs
  pub is_queues : queues chain offs ≡ qs
  pub submittable : (p : ℕ) → submit ≡ some p → IsSubmittable c chain p

-- The place of a view, found from its queue.
cursor_of :
    (c : Commitlog) (chain offs : List ℕ) (v k : ℕ) (cursor : Option ℕ)
    → Represents c chain offs
    → get_elem? offs v ≡ some k
    → get_elem? chain k ≡ cursor
    → get_elem? c.views v ≡ some cursor
cursor_of c chain offs v k cursor r e f = rw r.views (at offs v e)
  where
    at :
        (ks : List ℕ) (i : ℕ)
        → get_elem? ks i ≡ some k
        → get_elem? (cursors chain ks) i ≡ some cursor
    at [] i e' = cc
    at (j ∷ js) zero e' = ground (arith, f)
    at (j ∷ js) (suc i) e' = at js i e'

pub record Place (c : Commitlog) (chain offs : List ℕ) (v : ℕ) (q : List ℕ) : Type 0 where
  pub k : ℕ
  pub off : get_elem? offs v ≡ some k
  pub rest : drop k chain ≡ q
  pub cursor : get_elem? c.views v ≡ some (get_elem? q 0)
  pub at_place : get_elem? c.views v ≡ some (get_elem? chain k)

place_at :
    (c : Commitlog) (chain offs : List ℕ) (v k : ℕ) (q : List ℕ)
    → Represents c chain offs
    → get_elem? offs v ≡ some k
    → drop k chain ≡ q
    → get_elem? c.views v ≡ some (get_elem? q 0)
place_at c chain offs v k [] r e d = cursor_of c chain offs v k none r e (drop-nil chain k d)
place_at c chain offs v k (x ∷ q) r e d =
    cursor_of c chain offs v k (some x) r e (drop-cons chain k x q d).0

module _ (c : Commitlog) (qs : List (List ℕ)) (submit : Option ℕ) (s : Queued c qs submit) where
  pub place : (v : ℕ) (q : List ℕ) → get_elem? qs v ≡ some q → Place c s.chain s.offs v q
  place v q e =
      let (k, off, rest) = get_elem?-queues s.chain s.offs v q (rw s.is_queues e) in
      record {
        k = k;
        off = off;
        rest = rest;
        cursor = place_at c s.chain s.offs v k q s.represents off rest;
        at_place = cursor_of c s.chain s.offs v k (get_elem? s.chain k) s.represents off refl;
      }

  -- In a commit log with a queue for each view, a view that comes without a change log is handed
  -- the oldest one of its queue, and nothing changes.
  pub poppush_first :
      (v x : ℕ) (q : List ℕ)
      → get_elem? qs v ≡ some (x ∷ q)
      → poppush c v none submit
        ≡ some (true, record { previouslog = some x; submitlog = submit; log = c })
  unfolding poppush
  poppush_first v x q e = ground (arith, (place v (x ∷ q) e).cursor)

-- A view with an empty queue that comes with nothing is handed nothing.
pub poppush_idle :
    (c : Commitlog) (qs : List (List ℕ)) (v : ℕ)
    → Queued c qs none
    → get_elem? qs v ≡ some []
    → poppush c v none none ≡ some (false, record { previouslog = none; submitlog = none; log = c })
unfolding poppush push
poppush_idle c qs v s e = let pl = place c qs none s v [] e in ground (arith, pl.cursor)

not_own : (chain : List ℕ) (k p : ℕ) → All (λ x. x ≢ p) chain → same (get_elem? chain k) p ≡ false
not_own [] k p h = refl
not_own (x ∷ xs) zero p h = ground (arith, h.0)
not_own (x ∷ xs) (suc k) p h = not_own xs k p h.1

-- What passing `x` leaves.
abbrev pub passed : Commitlog → ℕ → ℕ → Commitlog
passed c v x = release (record c { views = set c.views v (c.next x) }) x

abbrev pub popped_with : Option ℕ → Option ℕ → Commitlog → Popped
popped_with previous submit log = record { previouslog = previous; submitlog = submit; log = log }

advance_eq :
    (c : Commitlog) (v x : ℕ) (submit : Option ℕ)
    → ((p : ℕ) → submit ≡ some p → same (c.next x) p ≡ false)
    → advance c v x submit
      ≡ record { previouslog = c.next x; submitlog = submit; log = passed c v x }
unfolding advance
advance_eq c v x none h = refl
advance_eq c v x (some p) h = rw (h p refl)

pop_eq :
    (c : Commitlog) (v x : ℕ) (submit : Option ℕ)
    → get_elem? c.views v ≡ some (some x)
    → pop c v (some x) submit ≡ some (advance c v x submit)
unfolding pop
pop_eq c v x submit e = ground (arith, e)

module _ (c : Commitlog) (qs : List (List ℕ)) (submit : Option ℕ) (s : Queued c qs submit) where
  pub passed-Queued :
      (v x : ℕ) (q : List ℕ)
      → get_elem? qs v ≡ some (x ∷ q)
      → Queued (passed c v x) (set qs v q) submit
  passed-Queued v x q e =
      let pl = place c qs submit s v (x ∷ q) e in
      let (at, after, rest, fits) = drop-cons s.chain pl.k x q pl.rest in
      let moved = moved-Represents c s.chain s.offs v pl.k x s.represents at fits in
      let k = release-Keeps _ s.chain (set s.offs v (suc pl.k)) x moved in
      record {
        chain = k.chain';
        offs = k.offs';
        represents = k.represents;
        is_queues =
            k.queues'
            ∙ queues-set s.chain s.offs v (suc pl.k)
            ∙ ap (λ r. set r v (drop (suc pl.k) s.chain)) s.is_queues
            ∙ ap (λ r. set qs v r) rest;
        submittable = λ p h.
            let own = s.submittable p h in
            k.apart p
              (record { created = own.created; apart = own.apart; unlinked = own.unlinked });
      }

  pub pop_seen :
      (v x : ℕ) (q : List ℕ)
      → get_elem? qs v ≡ some (x ∷ q)
      → pop c v (some x) submit
        ≡ some (record { previouslog = get_elem? q 0; submitlog = submit; log = passed c v x })
  pop_seen v x q e =
      let pl = place c qs submit s v (x ∷ q) e in
      let (at, after, rest, fits) = drop-cons s.chain pl.k x q pl.rest in
      let next = next-Linked c.next s.chain pl.k x s.represents.linked at in
      pop_eq c v x submit pl.cursor
      ∙ ap some (
          advance_eq c v x submit
            (λ p h. rw next (not_own s.chain (suc pl.k) p (s.submittable p h).apart)))
      ∙ ap (λ n. some (popped_with n submit (passed c v x))) (next ∙ after)

  -- In a commit log with a queue for each view, a view that has seen the oldest change log of its
  -- queue, and has another, is handed the next one; the seen one leaves its queue and the other
  -- queues stay.
  pub poppush_next :
      (v x y : ℕ) (q : List ℕ)
      → get_elem? qs v ≡ some (x ∷ y ∷ q)
      → (c' : Commitlog) × (poppush c v (some x) submit
          ≡ some (true, record { previouslog = some y; submitlog = submit; log = c' }))
        × Queued c' (set qs v (y ∷ q)) submit
  unfolding poppush
  poppush_next v x y q e =
      (passed c v x, ground (arith, pop_seen v x (y ∷ q) e), passed-Queued v x (y ∷ q) e)
