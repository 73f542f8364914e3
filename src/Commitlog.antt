-- ===== src/Commitlog.antt =====
-- commitlog.c: the chain of change logs that the views of a zone share, and each view's place in it.
pub mod Chain
pub mod Push
pub mod Pop
pub mod Queues
pub mod Submit
pub mod Samples
pub mod Safety
mod Tests
use volans.Prelude.{
  ℕ, zero, suc, ◌+◌, Bool, true, false, Option, none, some, List, [], ◌∷◌, ◌++◌, ◌==◌,
  if◌then◌else◌, get_elem?, set, length, reverse,
}

-- A table is known by its address, a number. `next` holds the field `next` of every table,
-- `fresh` is the next address that `names_tablecreate` returns, `destroyed` the tables given to
-- `names_commitlogdestroy` and `stored` those handed to `storefn`, the latest first.
-- `views` holds `views[i].nextchangelog` for each i below `nviews`, and `none` is NULL.
pub record Commitlog : Type 0 where
  pub views : List (Option ℕ)
  pub firstchangelog : Option ℕ
  pub lastchangelog : Option ℕ
  pub next : ℕ → Option ℕ
  pub fresh : ℕ
  pub destroyed : List ℕ
  pub has_store : Bool
  pub stored : List ℕ

abbrev pub same : Option ℕ → ℕ → Bool
same none b = false
same (some a) b = a == b

abbrev pub update : (ℕ → Option ℕ) → ℕ → Option ℕ → ℕ → Option ℕ
update f k v j = if j == k then v else f j

-- The search `for(i) if(views[i].nextchangelog == log) break` ended by its break.
pub any_at : List (Option ℕ) → ℕ → Bool
any_at [] log = false
any_at (v ∷ vs) log = if same v log then true else any_at vs log

-- Drops the first change log when no view stands at it.
pub release : Commitlog → ℕ → Commitlog
unfolding any_at
release c log =
    if same c.firstchangelog log
    then (if any_at c.views log then c else record c {
      firstchangelog = c.next log;
      lastchangelog = elim (c.next log) [ none ↦ none | some _ ↦ c.lastchangelog ];
      destroyed = log ∷ c.destroyed;
    })
    else c

-- `names_commitlogpersistincr`
pub persistincr : Commitlog → ℕ → Commitlog
persistincr c log = if c.has_store then record c { stored = log ∷ c.stored } else c

-- The loop that leads every view without a next change log to the pushed one; `none` is the
-- assertion that the pushing view has nothing left.
pub lead : ℕ → ℕ → ℕ → List (Option ℕ) → Option (List (Option ℕ))
lead viewid pushed i [] = some []
lead viewid pushed i (none ∷ vs) = elim (lead viewid pushed (suc i) vs) [
  | none ↦ none
  | some rest ↦ some (some pushed ∷ rest)
]
lead viewid pushed i (some log ∷ vs) = elim (lead viewid pushed (suc i) vs) [
  | none ↦ none
  | some rest ↦ if i == viewid then none else some (some log ∷ rest)
]

-- The chain behind a push: `none` is a failed assertion.
pub link : Commitlog → ℕ → Option Commitlog
link c pushed = elim c.firstchangelog [
  | none ↦ elim c.lastchangelog [
    | none ↦ some (record c { firstchangelog = some pushed; lastchangelog = some pushed })
    | some _ ↦ none
  ]
  | some _ ↦ elim c.lastchangelog [
    | none ↦ none
    | some l ↦
        if l == pushed
        then none
        else some (record c { next = update c.next l (some pushed); lastchangelog = some pushed })
  ]
]

-- `*previouslog` and `*submitlog`, where `none` is NULL (of `submitlog` itself), and the commit log.
pub record Popped : Type 0 where
  pub previouslog : Option ℕ
  pub submitlog : Option ℕ
  pub log : Commitlog

infixl 5 ◌>>=◌
abbrev pub ◌>>=◌ {ℓ κ} : {A : Type ℓ} {B : Type κ} → Option A → (A → Option B) → Option B
none >>= f = none
some a >>= f = f a

-- `names_tablecreate`: a table at a fresh address whose `next` is NULL.
pub tablecreate : Commitlog → ℕ × Commitlog
tablecreate c = (c.fresh, record c { next = update c.next c.fresh none; fresh = c.fresh + 1 })

-- The view passes over `popped`; a change log that it is about to submit itself is not handed out.
pub advance : Commitlog → ℕ → ℕ → Option ℕ → Popped
unfolding release tablecreate
advance c viewid popped submit =
    let following = c.next popped in
    let moved = record c { views = set c.views viewid following } in
    elim submit [
      | none ↦ record { previouslog = following; submitlog = none; log = release moved popped }
      | some own ↦
          if same following own
          then (let (table, created) = tablecreate moved in
              record { previouslog = none; submitlog = some table; log = release created popped })
          else record { previouslog = following; submitlog = some own; log = release moved popped }
    ]

-- The first half of `names_commitlogpoppush`. `none` is the failed assertion that `*previouslog` is
-- the change log at which the view stands, or a view that was never subscribed.
pub pop : Commitlog → ℕ → Option ℕ → Option ℕ → Option Popped
unfolding advance
pop c viewid previous submit = do
  cursor ← get_elem? c.views viewid
  elim cursor [
    | none ↦ some (record { previouslog = none; submitlog = submit; log = c })
    | some popped ↦ elim previous [
      | none ↦ some (record { previouslog = some popped; submitlog = submit; log = c })
      | some p ↦ if p == popped then some (advance c viewid popped submit) else none
    ]
  ]

-- The second half: with nothing popped, the submitted change log is pushed and replaced by a new
-- table. The result code is whether a change log was handed out.
pub push : ℕ → Popped → Option (Bool × Popped)
unfolding tablecreate link lead persistincr
push viewid p = elim p.previouslog [
  | some log ↦ some (true, p)
  | none ↦ elim p.submitlog [
    | none ↦ some (false, p)
    | some pushed ↦ do
      let (table, created) = tablecreate p.log
      linked ← link created pushed
      views ← lead viewid pushed 0 linked.views
      some (
        false,
        record {
          previouslog = some pushed;
          submitlog = some table;
          log = persistincr (record linked { views = views }) pushed;
        },
      )
  ]
]

-- `names_commitlogpoppush`
pub poppush : Commitlog → ℕ → Option ℕ → Option ℕ → Option (Bool × Popped)
unfolding pop push
poppush c viewid previous submit = do p ← pop c viewid previous submit; push viewid p

-- `names_commitlogsubscribe` without a commit log, and with one; the result is the view's number.
pub create : ℕ → Commitlog
create fresh = record {
  views = none ∷ [];
  firstchangelog = none;
  lastchangelog = none;
  next = λ _. none;
  fresh = fresh;
  destroyed = [];
  has_store = false;
  stored = [];
}

pub subscribe : Commitlog → ℕ × Commitlog
subscribe c = (length c.views, record c { views = c.views ++ none ∷ [] })

-- The loop of `names_commitlogpersistfull` over the change logs from `log` on, `fuel` at most.
pub follow : (ℕ → Option ℕ) → ℕ → Option ℕ → List ℕ
follow next fuel none = []
follow next zero (some log) = []
follow next (suc fuel) (some log) = log ∷ follow next fuel (next log)

-- `names_commitlogpersistfull`: the new store begins with what the view has yet to see.
pub persistfull : Commitlog → ℕ → ℕ → Option Commitlog
unfolding follow
persistfull c viewid fuel = do
  cursor ← get_elem? c.views viewid
  some (record c { has_store = true; stored = reverse (follow c.next fuel cursor) })

-- `names_commitlogpersistappend`
pub persistappend : Commitlog → Commitlog
persistappend c = record c { has_store = true; stored = [] }

-- The loop of `names_commitlogdestroyall`: the tables destroyed, `fuel` at most.
pub destroyall : Commitlog → ℕ → List ℕ
unfolding follow
destroyall c fuel = follow c.next fuel c.firstchangelog
