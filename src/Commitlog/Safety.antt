-- ===== src/Commitlog/Safety.antt =====
-- The other functions of commitlog.c, seen as queues: release, subscription, storing, destruction.
use volans.Prelude.{
  ℕ, zero, suc, ◌≤◌, ◌≡◌, ◌≢◌, refl, sym, ◌∙◌, ap, subst, true, ◌⊎◌, inl, inr, Option, none, some,
  List, [], ◌∷◌, ◌++◌, reverse, arith, get_elem?, length, drop, All, All-append,
}
use volans.Commitlog.{Commitlog, release, subscribe, follow, persistfull, destroyall}
use volans.Commitlog.Chain.{Represents, cursors, queues, Linked}
use volans.Commitlog.Pop.{release-Keeps}
use volans.Commitlog.Queues.{Queued, place}

All-drop : (P : ℕ → Type 0) (chain : List ℕ) (k : ℕ) → All P chain → All P (drop k chain)
All-drop P chain zero h = h
All-drop P [] (suc k) h = tt
All-drop P (x ∷ xs) (suc k) h = All-drop P xs k h.1

All-queues : (P : ℕ → Type 0) (chain offs : List ℕ) → All P chain → All (All P) (queues chain offs)
All-queues P chain [] h = tt
All-queues P chain (k ∷ ks) h = (All-drop P chain k h, All-queues P chain ks h)

-- In a commit log with a queue for each view, names_commitlogrelease changes no queue, and
-- destroys the change log only if it is in no queue.
pub release-Queued :
    (c : Commitlog) (qs : List (List ℕ)) (submit : Option ℕ) (x : ℕ)
    → Queued c qs submit
    → Queued (release c x) qs submit
      × (((release c x).destroyed ≡ c.destroyed)
          ⊎ (((release c x).destroyed ≡ x ∷ c.destroyed) × All (All (λ y. y ≢ x)) qs))
release-Queued c qs submit x s =
    let k = release-Keeps c s.chain s.offs x s.represents in
    let same_queues = k.queues' ∙ s.is_queues in
    (
      record {
        chain = k.chain';
        offs = k.offs';
        represents = k.represents;
        is_queues = same_queues;
        submittable = λ p h. k.apart p (s.submittable p h);
      },
      elim k.destroyed [
        | inl e ↦ inl e
        | inr (e, gone) ↦ inr (
          e,
          subst (λ r. All (All (λ y. y ≢ x)) r) same_queues
              (All-queues (λ y. y ≢ x) k.chain' k.offs' gone),
        )
      ],
    )

cursors-append :
    (chain offs : List ℕ)
    → cursors chain offs ++ get_elem? chain (length chain) ∷ []
      ≡ cursors chain (offs ++ length chain ∷ [])
cursors-append chain [] = refl
cursors-append chain (k ∷ ks) = ap (λ r. get_elem? chain k ∷ r) (cursors-append chain ks)

at_end :
    (chain : List ℕ) → (get_elem? chain (length chain) ≡ none) × (drop (length chain) chain ≡ [])
at_end [] = (refl, refl)
at_end (x ∷ xs) = at_end xs

queues-append :
    (chain offs : List ℕ) (k : ℕ)
    → queues chain (offs ++ k ∷ []) ≡ queues chain offs ++ drop k chain ∷ []
queues-append chain [] k = refl
queues-append chain (j ∷ js) k = ap (λ r. drop j chain ∷ r) (queues-append chain js k)

length-cursors : (chain offs : List ℕ) → length (cursors chain offs) ≡ length (queues chain offs)
length-cursors chain [] = refl
length-cursors chain (k ∷ ks) = ap suc (length-cursors chain ks)

-- In a commit log with a queue for each view, a view that subscribes gets an empty queue behind
-- the others, and its place as its number.
pub subscribe-Queued :
    (c : Commitlog) (qs : List (List ℕ)) (submit : Option ℕ)
    → Queued c qs submit
    → ((subscribe c).0 ≡ length qs) × Queued (subscribe c).1 (qs ++ [] ∷ []) submit
unfolding subscribe
subscribe-Queued c qs submit s =
    let r = s.represents in
    let (no_cursor, no_queue) = at_end s.chain in
    (
      ap length r.views ∙ length-cursors s.chain s.offs ∙ ap length s.is_queues,
      record {
        chain = s.chain;
        offs = s.offs ++ length s.chain ∷ [];
        represents = record {
          views =
              ap (λ vs. vs ++ none ∷ []) r.views
              ∙ ap (λ o. cursors s.chain s.offs ++ o ∷ []) (sym no_cursor)
              ∙ cursors-append s.chain s.offs;
          first = r.first;
          last = r.last;
          linked = r.linked;
          distinct = r.distinct;
          created = r.created;
          within =
              All-append (λ k. k ≤ length s.chain) s.offs (length s.chain ∷ []) r.within
                (omega arith, tt);
        };
        is_queues =
            queues-append s.chain s.offs (length s.chain)
            ∙ ap (λ r. r ++ drop (length s.chain) s.chain ∷ []) s.is_queues
            ∙ ap (λ q. qs ++ q ∷ []) no_queue;
        submittable = λ p h.
            let own = s.submittable p h in
            record { created = own.created; apart = own.apart; unlinked = own.unlinked };
      },
    )

-- Following `next` from the place of a view gives its queue, given a step for each change log.
follow-drop :
    (next : ℕ → Option ℕ) (chain : List ℕ) (fuel : ℕ)
    → Linked next chain
    → length chain ≤ fuel
    → follow next fuel (get_elem? chain 0) ≡ chain
unfolding follow
follow-drop next [] fuel l h = refl
follow-drop next (x ∷ xs) zero l h = absurd (omega arith)
follow-drop next (x ∷ xs) (suc fuel) l h =
    rw l.0 (ap (λ r. x ∷ r) (follow-drop next xs fuel l.1 (omega arith)))

-- names_commitlogdestroyall destroys every change log of the chain that the commit log holds, once
-- and in order. One step for each is enough.
pub destroyall-Represents :
    (c : Commitlog) (chain offs : List ℕ) (fuel : ℕ)
    → Represents c chain offs
    → length chain ≤ fuel
    → destroyall c fuel ≡ chain
unfolding destroyall
destroyall-Represents c chain offs fuel r h = rw r.first (follow-drop c.next chain fuel r.linked h)

follow_at :
    (next : ℕ → Option ℕ) (chain : List ℕ) (k fuel : ℕ)
    → Linked next chain
    → length (drop k chain) ≤ fuel
    → follow next fuel (get_elem? chain k) ≡ drop k chain
follow_at next chain zero fuel l h = follow-drop next chain fuel l h
follow_at next [] (suc k) fuel l h = unfold follow in refl
follow_at next (x ∷ xs) (suc k) fuel l h = follow_at next xs k fuel l.1 h

abbrev pub written : Commitlog → List ℕ → Commitlog
written c q = record c { has_store = true; stored = reverse q }

-- In a commit log with a queue for each view, names_commitlogpersistfull begins the new store with
-- exactly the queue of the view, in its order, and changes nothing else. One step for each change
-- log of the queue is enough.
pub persistfull-Queued :
    (c : Commitlog) (qs : List (List ℕ)) (submit : Option ℕ) (v fuel : ℕ) (q : List ℕ)
    → Queued c qs submit
    → get_elem? qs v ≡ some q
    → length q ≤ fuel
    → persistfull c v fuel ≡ some (written c q)
unfolding persistfull
persistfull-Queued c qs submit v fuel q s e h =
    let pl = place c qs submit s v q e in
    let fits : length (drop pl.k s.chain) ≤ fuel = rw pl.rest h in
    rw pl.at_place (
      ap (λ r. some (written c r))
        (follow_at c.next s.chain pl.k fuel s.represents.linked fits ∙ pl.rest))
