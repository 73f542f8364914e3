-- ===== src/Views/Commit.antt =====
-- `updateview`, with the own change log to commit and without it, on the queues of change logs.
use volans.Prelude.{
  ℕ, zero, suc, ◌<◌, ◌≡◌, refl, sym, ◌∙◌, ap, subst, Bool, true, false, Option, none, some, List,
  [], ◌∷◌, ◌++◌, map, arith, get_elem?, set, length, if◌then◌else◌,
}
use volans.Commitlog.{Commitlog}
use volans.Commitlog.Queues.{Queued, poppush_first}
use volans.Commitlog.Submit.{poppush_submit, poppush_last_submit}
use volans.Index.{Rbtree}
use volans.Table.{Nodes}
use volans.Views.Changes.{Change}
use volans.Views.Store.{View}
use volans.Views.Apply.{commit_own}
use volans.Views.Loop.{update_loop, updateview}
use volans.Views.Update.{
  applied, first_applied, no_conflict, Publishes, published, round, last_round, commit_loop,
}

set_same : (qs : List (List ℕ)) (v : ℕ) (q : List ℕ) → get_elem? qs v ≡ some q → set qs v q ≡ qs
set_same [] v q e = refl
set_same (x ∷ xs) zero q e = ap (λ r. r ∷ xs) (cc e)
set_same (x ∷ xs) (suc v) q e = ap (λ r. x ∷ r) (set_same xs v q e)

abbrev seen_view : {View : Type 0} → View → Option (Bool × View) → View
seen_view v none = v
seen_view v (some (b, w)) = w

-- The queue of a view after it was emptied and every queue got `p`.
get_published :
    (qs : List (List ℕ)) (v p : ℕ) (q : List ℕ)
    → get_elem? qs v ≡ some q
    → get_elem? (map (λ q. q ++ p ∷ []) (set qs v [])) v ≡ some (p ∷ [])
get_published [] v p q e = cc
get_published (x ∷ xs) zero p q e = refl
get_published (x ∷ xs) (suc v) p q e = get_published xs v p q e

module _ {Rr Tree Log : Type 0} (rb : Rbtree Tree) (ns : Nodes Change Log)
    (dname_hash : List ℕ → Option (List ℕ) → Option (List ℕ))
    (tables : ℕ → List (Option Change)) where
  -- The loop of a view that commits `p`, where no change log conflicts.
  loop_commits :
      (c : Commitlog) (qs : List (List ℕ)) (i fuel p : ℕ) (q : List ℕ) (v w : View Rr Tree Log)
      → Queued c qs (some p)
      → get_elem? qs i ≡ some q
      → length q < fuel
      → applied rb ns dname_hash tables q false v ≡ some (false, w)
      → Publishes rb ns dname_hash tables c qs i fuel p none v w
  loop_commits c qs i zero p q v w s e h a = absurd (omega arith)
  loop_commits c qs i (suc fuel) p [] v w s e h a =
      let (c', eq, s') = poppush_submit c qs i p s e in
      let same : v ≡ w = ap (λ o. seen_view v o) a in
      (
        c',
        c.fresh,
        last_round rb ns dname_hash tables c i fuel none (some p) false v _ eq
            ∙ ap (λ u. some (published rb ns dname_hash tables u p c.fresh c')) same,
        subst (λ r. Queued c' (map (λ q. q ++ p ∷ []) r) (some c.fresh)) (sym (set_same qs i [] e))
            s',
      )
  loop_commits c qs i (suc fuel) p (x ∷ q) v w s e h a =
      let (conflict, v', f, more) = first_applied rb ns dname_hash tables x q false false v w a in
      let same = no_conflict rb ns dname_hash tables q conflict v' w more in
      let (c', n, eq, s') =
        commit_loop rb ns dname_hash tables c qs i fuel p x q v' w s e (omega arith)
          (ap (λ k. applied rb ns dname_hash tables q k v') (sym same) ∙ more) in
      (
        c',
        n,
        round rb ns dname_hash tables c c i fuel x none (some p) (some p) false conflict v v'
              (poppush_first c qs (some p) s i x q e) f
            ∙ ap
                (λ k.
                  update_loop rb ns dname_hash tables fuel c i (some x) (if k then none else some p)
                    k v')
                same
            ∙ eq,
        s',
      )

  -- Where the change logs in the queue of a view can be applied to it one after the other without
  -- a conflict, and then its own changes inserted, a commit goes through and leaves the view that
  -- this leaves; the queue is emptied, every queue gets the own table, whose address the view
  -- commits, and behind it a new one, with which the own queue begins. One round for each change
  -- log and one more are enough.
  pub updateview_commit :
      (c : Commitlog) (qs : List (List ℕ)) (i fuel p : ℕ) (q : List ℕ) (v w w' : View Rr Tree Log)
      → Queued c qs (some p)
      → get_elem? qs i ≡ some q
      → length q < fuel
      → applied rb ns dname_hash tables q false v ≡ some (false, w)
      → commit_own rb ns dname_hash true w ≡ some (tt, w')
      → (c' : Commitlog) × (n : ℕ) × (m : ℕ) × (updateview rb ns dname_hash tables fuel c i
            (some p)
            v
          ≡ some (record {
            view = w';
            conflict = false;
            changelog = some n;
            mychangelog = some m;
            log = c';
          }))
        × Queued c'
            (map (λ q. q ++ n ∷ []) (set (map (λ q. q ++ p ∷ []) (set qs i [])) i []))
            (some m)
  unfolding updateview
  updateview_commit c qs i fuel p q v w w' s e h a own =
      let (c1, n, eq, s1) = loop_commits c qs i fuel p q v w s e h a in
      let (c', m, eq', s') =
        poppush_last_submit c1 (map (λ q. q ++ p ∷ []) (set qs i [])) i p n s1
          (get_published qs i p q e) in
      (c', n, m, rw (eq, own, eq') refl, s')
