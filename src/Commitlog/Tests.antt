-- ===== src/Commitlog/Tests.antt =====
-- Runs of the sample commit logs.
use volans.Prelude.{ℕ, ◌≡◌, refl, true, false, none, some, [], ◌∷◌, arith, ◌⊎◌, ◌≢◌, All}
use volans.Commitlog.{Commitlog, poppush, release, persistfull, destroyall}
use volans.Commitlog.Samples.{
  two_views, two_views-Queued, one_log, one_log-Queued, one_log-idle, two_logs, table_2,
  two_logs-Queued,
}
use volans.Commitlog.Submit.{poppush_submit, poppush_last_submit, poppush_last}
use volans.Commitlog.Queues.{Queued, poppush_next}
use volans.Commitlog.{update}
use volans.Commitlog.Chain.{Represents}
use volans.Commitlog.Safety.{release-Queued, persistfull-Queued, destroyall-Represents}

-- Table 0 is submitted by the second view; table 1 is its next one.
poppush_submit_example :
    (c' : Commitlog) × (poppush two_views 1 none (some 0)
      ≡ some (false, record { previouslog = some 0; submitlog = some two_views.fresh; log = c' }))
    × Queued c' ((0 ∷ []) ∷ (0 ∷ []) ∷ []) (some two_views.fresh)
poppush_submit_example = poppush_submit two_views ([] ∷ [] ∷ []) 1 0 two_views-Queued refl

poppush_last_submit_example :
    (c' : Commitlog) × (n : ℕ) × (poppush one_log 0 (some 0) (some two_views.fresh)
      ≡ some (false, record { previouslog = some two_views.fresh; submitlog = some n; log = c' }))
    × Queued c' ((two_views.fresh ∷ []) ∷ (0 ∷ two_views.fresh ∷ []) ∷ []) (some n)
poppush_last_submit_example =
    poppush_last_submit one_log ((0 ∷ []) ∷ (0 ∷ []) ∷ []) 0 0 two_views.fresh one_log-Queued refl

poppush_next_example :
    (c' : Commitlog) × (poppush two_logs 1 (some 0) (some table_2)
      ≡ some
          (true, record { previouslog = some two_views.fresh; submitlog = some table_2; log = c' }))
    × Queued c' ((two_views.fresh ∷ []) ∷ (two_views.fresh ∷ []) ∷ []) (some table_2)
poppush_next_example =
    poppush_next two_logs ((two_views.fresh ∷ []) ∷ (0 ∷ two_views.fresh ∷ []) ∷ []) (some table_2)
      two_logs-Queued 1 0 two_views.fresh [] refl

poppush_last_example :
    (c' : Commitlog) × (poppush one_log 0 (some 0) none
      ≡ some (false, record { previouslog = none; submitlog = none; log = c' }))
    × Queued c' ([] ∷ (0 ∷ []) ∷ []) none
poppush_last_example = poppush_last one_log ((0 ∷ []) ∷ (0 ∷ []) ∷ []) 0 0 one_log-idle refl

release-Queued_example :
    Queued (release one_log 0) ((0 ∷ []) ∷ (0 ∷ []) ∷ []) (some two_views.fresh)
    × (((release one_log 0).destroyed ≡ one_log.destroyed)
        ⊎ (((release one_log 0).destroyed ≡ 0 ∷ one_log.destroyed)
            × All (All (λ (y : ℕ). y ≢ 0)) ((0 ∷ []) ∷ (0 ∷ []) ∷ [])))
release-Queued_example =
    release-Queued one_log ((0 ∷ []) ∷ (0 ∷ []) ∷ []) (some two_views.fresh) 0 one_log-Queued

persistfull-Queued_example :
    persistfull one_log 0 1 ≡ some (record one_log { has_store = true; stored = 0 ∷ [] })
persistfull-Queued_example =
    persistfull-Queued one_log ((0 ∷ []) ∷ (0 ∷ []) ∷ []) (some two_views.fresh) 0 1 (0 ∷ [])
      one_log-Queued refl (omega arith)

-- The chain of tables 0 and 1, the second of which one of two views has yet to see.
abbrev two_tables : Commitlog
two_tables = record {
  views = some 1 ∷ none ∷ [];
  firstchangelog = some 0;
  lastchangelog = some 1;
  next = update (λ _. none) 0 (some 1);
  fresh = 2;
  destroyed = [];
  has_store = false;
  stored = [];
}

two_tables-Represents : Represents two_tables (0 ∷ 1 ∷ []) (1 ∷ 2 ∷ [])
two_tables-Represents = record {
  views = refl;
  first = refl;
  last = refl;
  linked = (refl, (refl, tt));
  distinct = ((omega arith, tt), (tt, tt));
  created = (omega arith, (omega arith, tt));
  within = (omega arith, (omega arith, tt));
}

destroyall-Represents_example : destroyall two_tables 2 ≡ 0 ∷ 1 ∷ []
destroyall-Represents_example =
    destroyall-Represents two_tables (0 ∷ 1 ∷ []) (1 ∷ 2 ∷ []) 2 two_tables-Represents (omega arith)
