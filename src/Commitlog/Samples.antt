-- ===== src/Commitlog/Samples.antt =====
-- Commit logs of two views, on which the theorems are tried.
use volans.Prelude.{ℕ, refl, none, some, [], ◌∷◌, arith}
use volans.Commitlog.{Commitlog, create, subscribe}
use volans.Commitlog.Queues.{Queued}
use volans.Commitlog.Submit.{create-Queued, poppush_submit, poppush_last_submit}
use volans.Commitlog.Safety.{subscribe-Queued}

-- Table 0 belongs to the second view; views 0 and 1 are subscribed.
abbrev pub two_views : Commitlog
two_views = (subscribe (create 1)).1

pub two_views-Queued : Queued two_views ([] ∷ [] ∷ []) (some 0)
two_views-Queued =
    (subscribe-Queued (create 1) ([] ∷ []) (some 0) (create-Queued 1 0 (omega arith))).1

abbrev pub one_log : Commitlog
one_log = (poppush_submit two_views ([] ∷ [] ∷ []) 1 0 two_views-Queued refl).0

pub one_log-Queued : Queued one_log ((0 ∷ []) ∷ (0 ∷ []) ∷ []) (some two_views.fresh)
one_log-Queued = (poppush_submit two_views ([] ∷ [] ∷ []) 1 0 two_views-Queued refl).2

abbrev pub two_logs : Commitlog
two_logs =
    (poppush_last_submit one_log ((0 ∷ []) ∷ (0 ∷ []) ∷ []) 0 0 two_views.fresh one_log-Queued
      refl).0

abbrev pub table_2 : ℕ
table_2 =
    (poppush_last_submit one_log ((0 ∷ []) ∷ (0 ∷ []) ∷ []) 0 0 two_views.fresh one_log-Queued
      refl).1

pub two_logs-Queued :
    Queued two_logs ((two_views.fresh ∷ []) ∷ (0 ∷ two_views.fresh ∷ []) ∷ []) (some table_2)
two_logs-Queued =
    (poppush_last_submit one_log ((0 ∷ []) ∷ (0 ∷ []) ∷ []) 0 0 two_views.fresh one_log-Queued
      refl).3

-- The views take part with nothing to submit.
pub one_log-idle : Queued one_log ((0 ∷ []) ∷ (0 ∷ []) ∷ []) none
one_log-idle = record {
  chain = one_log-Queued.chain;
  offs = one_log-Queued.offs;
  represents = one_log-Queued.represents;
  is_queues = one_log-Queued.is_queues;
  submittable = λ p e. cc e;
}
