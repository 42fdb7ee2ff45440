-- ===== src/Engine/Sync/Drain.antt =====
-- The worker runs out of work when the cluster is quiet (pkg/job/controller/job_sync).
use paddle_flow.Prelude.{
  Bool, Bool-cases, List, [], ap, arith, false, if◌then◌else◌, inl, inr, ltb, ltb→lt, subst, suc,
  sym, true, ℕ, ◌++◌, ◌+◌, ◌-◌, ◌<◌, ◌∷◌, ◌≡◌, ◌≤◌,
}
use paddle_flow.Engine.Table.{Answers}
use paddle_flow.Engine.Sync.{
  JobSync, JobSyncInfo, default_sync_retry_times, process, process_work_item, retry,
  sync_job_status,
}

-- How often an item may still be tried.
abbrev pub tries_left : JobSyncInfo → ℕ
tries_left info = suc (3 - info.retry_times)

abbrev pub total_tries : List JobSyncInfo → ℕ
total_tries [] = 0
total_tries (info ∷ infos) = tries_left info + total_tries infos

abbrev pub load : JobSync → ℕ
load j = total_tries j.queue + total_tries j.delayed

total_tries-append :
    (xs ys : List JobSyncInfo) → total_tries (xs ++ ys) ≡ total_tries xs + total_tries ys
total_tries-append [] ys = omega arith
total_tries-append (x ∷ xs) ys = omega (arith, total_tries-append xs ys)

-- The worker takes `n` items from queues that are not empty, and delays end, while the cluster is
-- quiet.
pub data Works (j : JobSync) : ℕ → JobSync → Type 0 where
  here : Works j 0 j
  arrive :
      {n : ℕ} {k l : JobSync} (before after : List JobSyncInfo) (info : JobSyncInfo)
      → Works j n k
      → k.delayed ≡ before ++ info ∷ after
      → l ≡ record k { queue = k.queue ++ info ∷ []; delayed = before ++ after }
      → Works j n l
  work :
      {n : ℕ} {k l : JobSync} (a : Answers) (info : JobSyncInfo) (rest : List JobSyncInfo)
      → Works j n k
      → k.queue ≡ info ∷ rest
      → l ≡ process_work_item k a
      → Works j (suc n) l

retry-total_tries :
    (info : JobSyncInfo) (delayed : List JobSyncInfo)
    → total_tries (retry info delayed) < total_tries delayed + tries_left info
retry-total_tries info delayed = elim (Bool-cases (ltb info.retry_times default_sync_retry_times)) [
  | inl e ↦ rw e (omega (arith, ltb→lt info.retry_times 3 e))
  | inr e ↦ rw e (omega arith)
]

process-load :
    (j : JobSync) (info : JobSyncInfo) (rest : List JobSyncInfo) (a : Answers)
    → load (process j info rest a) < total_tries (info ∷ rest) + total_tries j.delayed
unfolding process
process-load j info rest a = at_result (sync_job_status j.jobs info a).failed
  where
    at_result :
        (b : Bool)
        → total_tries rest + total_tries (if b then retry info j.delayed else j.delayed)
          < total_tries (info ∷ rest) + total_tries j.delayed
    at_result true = omega (arith, retry-total_tries info j.delayed)
    at_result false = omega arith

process_work_item-load :
    (j : JobSync) (info : JobSyncInfo) (rest : List JobSyncInfo) (a : Answers)
    → j.queue ≡ info ∷ rest
    → load (process_work_item j a) < load j
unfolding process_work_item
process_work_item-load j info rest a e = at_queue (j.queue) e
  where
    at_queue :
        (q : List JobSyncInfo)
        → q ≡ info ∷ rest
        → load (elim q as (λ x. JobSync) [ [] ↦ j | i ∷ r ↦ process j i r a ])
          < total_tries q + total_tries j.delayed
    at_queue [] q = cc
    at_queue (i ∷ r) q = process-load j i r a

-- While the cluster is quiet the worker takes no more items than four for each one that waits, fewer
-- for those that were retried: so each call that fails is repeated three times at most, and the
-- worker comes to rest.
pub Works-load : (j : JobSync) (n : ℕ) (k : JobSync) → Works j n k → n + load k ≤ load j
Works-load j n k here = omega arith
Works-load j n l (arrive {k = k} before after info w d e) =
    subst (λ (x : JobSync). n + load x ≤ load j) (sym e)
      (omega (
        arith,
        Works-load j n k w,
        ap total_tries d,
        total_tries-append before (info ∷ after),
        total_tries-append before after,
        total_tries-append k.queue (info ∷ []),
      ))
Works-load j n l (work {n = m} {k = k} a info rest w q e) =
    subst (λ (x : JobSync). suc m + load x ≤ load j) (sym e)
      (omega (arith, Works-load j m k w, process_work_item-load k info rest a q))
