-- ===== src/Commitlog/Submit.antt =====
-- `names_commitlogpoppush` of a view that submits its own change log, and the last of its queue.
use volans.Prelude.{
  ℕ, zero, suc, ◌<◌, ◌≡◌, refl, ◌∙◌, ap, subst, false, none, some, List, [], ◌∷◌, ◌++◌, map, arith,
  get_elem?, set,
}
use volans.Commitlog.{Commitlog, push, poppush, create}
use volans.Commitlog.Chain.{cursors, last_of, queues-push}
use volans.Commitlog.Push.{IsSubmittable, pushed, push_eq, push-Represents, pushed-IsSubmittable}
use volans.Commitlog.Queues.{Queued, place, passed, passed-Queued, popped_with, pop_seen}

-- The second half on a view with an empty queue.
push-Queued :
    (c : Commitlog) (qs : List (List ℕ)) (v p : ℕ)
    → Queued c qs (some p)
    → get_elem? qs v ≡ some []
    → (c' : Commitlog) × (push v (popped_with none (some p) c)
        ≡ some (false, popped_with (some p) (some c.fresh) c'))
      × Queued c' (map (λ q. q ++ p ∷ []) qs) (some c.fresh)
push-Queued c qs v p s e =
    let own = s.submittable p refl in
    let pl = place c qs (some p) s v [] e in
    let c' =
      pushed c (cursors (s.chain ++ p ∷ []) s.offs) (get_elem? s.chain 0) (last_of s.chain) p in
    (
      c',
      push_eq c s.chain s.offs v p s.represents own pl.cursor,
      record {
        chain = s.chain ++ p ∷ [];
        offs = s.offs;
        represents = push-Represents c s.chain s.offs p s.represents own;
        is_queues =
            queues-push s.chain s.offs p s.represents.within
            ∙ ap (map (λ q. q ++ p ∷ [])) s.is_queues;
        submittable = λ p' h.
            let same_table : c.fresh ≡ p' = cc h in
            subst (λ n. IsSubmittable c' (s.chain ++ p ∷ []) n) same_table
              (pushed-IsSubmittable c s.chain s.offs p s.represents own);
      },
    )

-- In a commit log with a queue of unseen change logs for each view, a view whose queue is empty
-- submits its table: every queue, its own too, gets the table at its end, the call hands out
-- nothing, and the caller has a new empty table.
pub poppush_submit :
    (c : Commitlog) (qs : List (List ℕ)) (v p : ℕ)
    → Queued c qs (some p)
    → get_elem? qs v ≡ some []
    → (c' : Commitlog) × (poppush c v none (some p)
        ≡ some (false, popped_with (some p) (some c.fresh) c'))
      × Queued c' (map (λ q. q ++ p ∷ []) qs) (some c.fresh)
unfolding poppush
poppush_submit c qs v p s e =
    let pl = place c qs (some p) s v [] e in
    let (c', eq, s') = push-Queued c qs v p s e in (c', ground (arith, pl.cursor, eq), s')

get_elem?-set :
    (qs : List (List ℕ)) (v : ℕ) (q q' : List ℕ)
    → get_elem? qs v ≡ some q
    → get_elem? (set qs v q') v ≡ some q'
get_elem?-set [] v q q' e = cc
get_elem?-set (x ∷ xs) zero q q' e = refl
get_elem?-set (x ∷ xs) (suc v) q q' e = get_elem?-set xs v q q' e

-- In a commit log with a queue for each view, a view that has seen the only change log of its
-- queue submits its table: the seen one leaves its queue, every queue gets the table at its end,
-- the call hands out nothing, and the caller has a new table.
pub poppush_last_submit :
    (c : Commitlog) (qs : List (List ℕ)) (v x p : ℕ)
    → Queued c qs (some p)
    → get_elem? qs v ≡ some (x ∷ [])
    → (c' : Commitlog) × (n : ℕ) × (poppush c v (some x) (some p)
        ≡ some (false, popped_with (some p) (some n) c'))
      × Queued c' (map (λ q. q ++ p ∷ []) (set qs v [])) (some n)
unfolding poppush
poppush_last_submit c qs v x p s e =
    let s' = passed-Queued c qs (some p) s v x [] e in
    let (c', eq, s'') =
      push-Queued (passed c v x) (set qs v []) v p s' (get_elem?-set qs v (x ∷ []) [] e) in
    (c', (passed c v x).fresh, ground (arith, pop_seen c qs (some p) s v x [] e, eq), s'')

-- In a commit log with a queue for each view, a view that has seen the only change log of its
-- queue and submits nothing is handed nothing; the seen one leaves its queue and the other queues
-- stay.
pub poppush_last :
    (c : Commitlog) (qs : List (List ℕ)) (v x : ℕ)
    → Queued c qs none
    → get_elem? qs v ≡ some (x ∷ [])
    → (c' : Commitlog) × (poppush c v (some x) none ≡ some (false, popped_with none none c'))
      × Queued c' (set qs v []) none
unfolding poppush push
poppush_last c qs v x s e = (
  passed c v x,
  ground (arith, pop_seen c qs none s v x [] e),
  passed-Queued c qs none s v x [] e,
)

-- A commit log as the first view creates it: one empty queue, and no change log.
pub create-Queued : (n p : ℕ) → p < n → Queued (create n) ([] ∷ []) (some p)
unfolding create
create-Queued n p h = record {
  chain = [];
  offs = 0 ∷ [];
  represents = record {
    views = refl;
    first = refl;
    last = refl;
    linked = tt;
    distinct = tt;
    created = tt;
    within = (omega arith, tt);
  };
  is_queues = refl;
  submittable = λ p' e.
      let same_table : p ≡ p' = cc e in
      subst (λ t. IsSubmittable (create n) [] t) same_table
        (record { created = h; apart = tt; unlinked = refl });
}
