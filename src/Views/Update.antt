-- ===== src/Views/Update.antt =====
-- The loop of `updateview` on the queues of change logs.
use volans.Prelude.{
  ℕ, zero, suc, ◌<◌, ◌≡◌, refl, sym, ◌∙◌, ap, subst, Bool, true, false, Option, none, some, List,
  [], ◌∷◌, ◌++◌, map, arith, get_elem?, set, length, if◌then◌else◌,
}
use volans.Commitlog.{Commitlog, Popped, poppush}
use volans.Commitlog.Queues.{Queued, poppush_next}
use volans.Commitlog.Submit.{poppush_last_submit, poppush_last}
use volans.Commitlog.{◌>>=◌}
use volans.Index.{Rbtree}
use volans.Table.{Nodes}
use volans.Views.Changes.{Change}
use volans.Views.Store.{View}
use volans.Views.Apply.{apply_table}
use volans.Views.Sticky.{apply_table_keeps}
use volans.Views.Loop.{Updated, update_loop}

-- A view that gives up its own changes.
pub without_submit :
    (c : Commitlog) (qs : List (List ℕ)) (submit : Option ℕ) → Queued c qs submit → Queued c qs none
without_submit c qs submit s = record {
  chain = s.chain;
  offs = s.offs;
  represents = s.represents;
  is_queues = s.is_queues;
  submittable = λ p e. cc e;
}

set-set : (qs : List (List ℕ)) (v : ℕ) (a b : List ℕ) → set (set qs v a) v b ≡ set qs v b
set-set [] v a b = refl
set-set (q ∷ qs) zero a b = refl
set-set (q ∷ qs) (suc v) a b = ap (λ r. q ∷ r) (set-set qs v a b)

get_elem?-set :
    (qs : List (List ℕ)) (v : ℕ) (q q' : List ℕ)
    → get_elem? qs v ≡ some q
    → get_elem? (set qs v q') v ≡ some q'
get_elem?-set [] v q q' e = cc
get_elem?-set (x ∷ xs) zero q q' e = refl
get_elem?-set (x ∷ xs) (suc v) q q' e = get_elem?-set xs v q q' e

abbrev pub handed : ℕ → Option ℕ → Commitlog → Popped
handed x submit c = record { previouslog = some x; submitlog = submit; log = c }

pub none_either : (b : Bool) → ◌≡◌ {A = Option ℕ} (if b then none else none) none
none_either true = refl
none_either false = refl

module _ {Rr Tree Log : Type 0} (rb : Rbtree Tree) (ns : Nodes Change Log)
    (dname_hash : List ℕ → Option (List ℕ) → Option (List ℕ))
    (tables : ℕ → List (Option Change)) where
  -- The changes of the change logs of a queue are applied, in their order.
  abbrev pub applied : List ℕ → Bool → View Rr Tree Log → Option (Bool × View Rr Tree Log)
  applied [] conflict v = some (conflict, v)
  applied (x ∷ q) conflict v = do
    (conflict', v') ← apply_table rb ns dname_hash (tables x) conflict v
    applied q conflict' v'

  abbrev pub caught_up : Bool → View Rr Tree Log → Commitlog → Updated Rr Tree Log
  caught_up conflict v c = record {
    view = v;
    conflict = conflict;
    changelog = none;
    mychangelog = none;
    log = c;
  }

  abbrev seen_view : View Rr Tree Log → Option (Bool × View Rr Tree Log) → View Rr Tree Log
  seen_view v none = v
  seen_view v (some (b, w)) = w

  abbrev finished_as : Option (Bool × View Rr Tree Log) → Commitlog → Option (Updated Rr Tree Log)
  finished_as none c = none
  finished_as (some (b, w)) c = some (caught_up b w c)

  -- A round in which a change log is handed out.
  pub round :
      (c c1 : Commitlog) (i fuel y : ℕ) (previous submit submit' : Option ℕ)
      (conflict conflict' : Bool) (v v' : View Rr Tree Log)
      → poppush c i previous submit ≡ some (true, handed y submit' c1)
      → apply_table rb ns dname_hash (tables y) conflict v ≡ some (conflict', v')
      → update_loop rb ns dname_hash tables (suc fuel) c i previous submit conflict v
        ≡ update_loop rb ns dname_hash tables fuel c1 i
            (some y)
            (if conflict' then none else submit')
            conflict'
            v'
  unfolding update_loop
  round c c1 i fuel y previous submit submit' conflict conflict' v v' e f = rw (e, f) refl

  -- The last round.
  pub last_round :
      (c : Commitlog) (i fuel : ℕ) (previous submit : Option ℕ) (conflict : Bool)
      (v : View Rr Tree Log) (p : Popped)
      → poppush c i previous submit ≡ some (false, p)
      → update_loop rb ns dname_hash tables (suc fuel) c i previous submit conflict v
        ≡ some (record {
          view = v;
          conflict = conflict;
          changelog = p.previouslog;
          mychangelog = p.submitlog;
          log = p.log;
        })
  unfolding update_loop
  last_round c i fuel previous submit conflict v p e = rw e refl

  -- The first change log of a queue that is applied.
  pub first_applied :
      (y : ℕ) (q : List ℕ) (conflict b : Bool) (v w : View Rr Tree Log)
      → applied (y ∷ q) conflict v ≡ some (b, w)
      → (conflict' : Bool) × (v' : View Rr Tree Log) × (apply_table rb ns dname_hash
            (tables y)
            conflict
            v
          ≡ some (conflict', v'))
        × (applied q conflict' v' ≡ some (b, w))
  first_applied y q conflict b v w h =
      by_result (apply_table rb ns dname_hash (tables y) conflict v) refl h
    where
      by_result :
          (o : Option (Bool × View Rr Tree Log))
          → apply_table rb ns dname_hash (tables y) conflict v ≡ o
          → (o >>= λ r. applied q r.0 r.1) ≡ some (b, w)
          → (conflict' : Bool) × (v' : View Rr Tree Log) × (apply_table rb ns dname_hash
                (tables y)
                conflict
                v
              ≡ some (conflict', v'))
            × (applied q conflict' v' ≡ some (b, w))
      by_result none e h = cc h
      by_result (some (conflict', v')) e h = (conflict', v', e, h)

  abbrev pub CatchesUp :
      Commitlog
      → List (List ℕ)
      → ℕ
      → ℕ
      → Option ℕ
      → Option ℕ
      → Bool
      → View Rr Tree Log
      → Bool
      → View Rr Tree Log
      → Type 0
  CatchesUp c qs i fuel previous submit conflict v b w =
      (c' : Commitlog) × (update_loop rb ns dname_hash tables fuel c i previous submit conflict v
        ≡ some (caught_up b w c'))
      × Queued c' (set qs i []) none

  pub idle_loop :
      (c : Commitlog) (qs : List (List ℕ)) (i fuel : ℕ) (conflict b : Bool) (x : ℕ) (q : List ℕ)
      (v w : View Rr Tree Log)
      → Queued c qs none
      → get_elem? qs i ≡ some (x ∷ q)
      → length q < fuel
      → applied q conflict v ≡ some (b, w)
      → CatchesUp c qs i fuel (some x) none conflict v b w
  idle_loop c qs i zero conflict b x q v w s e h a = absurd (omega arith)
  idle_loop c qs i (suc fuel) conflict b x [] v w s e h a =
      let (c', eq, s') = poppush_last c qs i x s e in
      (c', last_round c i fuel (some x) none conflict v _ eq ∙ ap (λ o. finished_as o c') a, s')
  idle_loop c qs i (suc fuel) conflict b x (y ∷ q) v w s e h a =
      let (c1, eq, s1) = poppush_next c qs none s i x y q e in
      let (conflict', v', f, more) = first_applied y q conflict b v w a in
      let (c', rest, s') =
        idle_loop c1 (set qs i (y ∷ q)) i fuel conflict' b y q v' w s1
          (get_elem?-set qs i (x ∷ y ∷ q) (y ∷ q) e) (omega arith) more in
      (
        c',
        round c c1 i fuel y (some x) none none conflict conflict' v v' eq f
            ∙ ap (λ m. update_loop rb ns dname_hash tables fuel c1 i (some y) m conflict' v')
                (none_either conflict')
            ∙ rest,
        subst (λ r. Queued c' r none) (set-set qs i (y ∷ q) []) s',
      )

  -- Once there is a conflict, it stays.
  applied_keeps :
      (q : List ℕ) (v w : View Rr Tree Log) (b : Bool) → applied q true v ≡ some (b, w) → b ≡ true
  applied_keeps [] v w b h = ground (arith, h)
  applied_keeps (y ∷ q) v w b h =
      let (conflict', v', f, more) = first_applied y q true b v w h in
      applied_keeps q v' w b (
        ap (λ k. applied q k v')
          (sym (apply_table_keeps rb ns dname_hash (tables y) v v' conflict' f))
        ∙ more)

  -- Without a conflict in the end there was none on the way.
  pub no_conflict :
      (q : List ℕ) (conflict' : Bool) (v w : View Rr Tree Log)
      → applied q conflict' v ≡ some (false, w)
      → conflict' ≡ false
  no_conflict q true v w h = sym (applied_keeps q v w false h)
  no_conflict q false v w h = refl

  abbrev pub published : View Rr Tree Log → ℕ → ℕ → Commitlog → Updated Rr Tree Log
  published v p n c = record {
    view = v;
    conflict = false;
    changelog = some p;
    mychangelog = some n;
    log = c;
  }

  abbrev pub Publishes :
      Commitlog
      → List (List ℕ)
      → ℕ
      → ℕ
      → ℕ
      → Option ℕ
      → View Rr Tree Log
      → View Rr Tree Log
      → Type 0
  Publishes c qs i fuel p previous v w =
      (c' : Commitlog) × (n : ℕ) × (update_loop rb ns dname_hash tables fuel c i previous (some p)
          false v
        ≡ some (published w p n c'))
      × Queued c' (map (λ q. q ++ p ∷ []) (set qs i [])) (some n)

  pub commit_loop :
      (c : Commitlog) (qs : List (List ℕ)) (i fuel p x : ℕ) (q : List ℕ) (v w : View Rr Tree Log)
      → Queued c qs (some p)
      → get_elem? qs i ≡ some (x ∷ q)
      → length q < fuel
      → applied q false v ≡ some (false, w)
      → Publishes c qs i fuel p (some x) v w
  commit_loop c qs i zero p x q v w s e h a = absurd (omega arith)
  commit_loop c qs i (suc fuel) p x [] v w s e h a =
      let (c', n, eq, s') = poppush_last_submit c qs i x p s e in
      let same : v ≡ w = ap (λ o. seen_view v o) a in
      (
        c',
        n,
        last_round c i fuel (some x) (some p) false v _ eq
            ∙ ap (λ u. some (published u p n c')) same,
        s',
      )
  commit_loop c qs i (suc fuel) p x (y ∷ q) v w s e h a =
      let (c1, eq, s1) = poppush_next c qs (some p) s i x y q e in
      let (conflict', v', f, more) = first_applied y q false false v w a in
      let same = no_conflict q conflict' v' w more in
      let (c', n, rest, s') =
        commit_loop c1 (set qs i (y ∷ q)) i fuel p y q v' w s1
          (get_elem?-set qs i (x ∷ y ∷ q) (y ∷ q) e) (omega arith)
          (ap (λ k. applied q k v') (sym same) ∙ more) in
      (
        c',
        n,
        round c c1 i fuel y (some x) (some p) (some p) false conflict' v v' eq f
            ∙ ap
                (λ k.
                  update_loop rb ns dname_hash tables fuel c1 i (some y)
                    (if k then none else some p) k v')
                same
            ∙ rest,
        subst (λ r. Queued c' (map (λ q. q ++ p ∷ []) r) (some n)) (set-set qs i (y ∷ q) []) s',
      )

  -- Behind a change log with or without a conflict, the loop of a view whose commit meets one.
  pub conflict_loop :
      (c : Commitlog) (qs : List (List ℕ)) (i fuel p x : ℕ) (q : List ℕ) (conflict : Bool)
      (v w : View Rr Tree Log)
      → Queued c qs (some p)
      → get_elem? qs i ≡ some (x ∷ q)
      → length q < fuel
      → applied q conflict v ≡ some (true, w)
      → CatchesUp c qs i fuel (some x) (if conflict then none else some p) conflict v true w
  conflict_loop c qs i fuel p x q true v w s e h a =
      idle_loop c qs i fuel true true x q v w (without_submit c qs (some p) s) e h a
  conflict_loop c qs i zero p x q false v w s e h a = absurd (omega arith)
  conflict_loop c qs i (suc fuel) p x [] false v w s e h a = absurd (ground (arith, a))
  conflict_loop c qs i (suc fuel) p x (y ∷ q) false v w s e h a =
      let (c1, eq, s1) = poppush_next c qs (some p) s i x y q e in
      let (conflict', v', f, more) = first_applied y q false true v w a in
      let (c', rest, s') =
        conflict_loop c1 (set qs i (y ∷ q)) i fuel p y q conflict' v' w s1
          (get_elem?-set qs i (x ∷ y ∷ q) (y ∷ q) e) (omega arith) more in
      (
        c',
        round c c1 i fuel y (some x) (some p) (some p) false conflict' v v' eq f ∙ rest,
        subst (λ r. Queued c' r none) (set-set qs i (y ∷ q) []) s',
      )
