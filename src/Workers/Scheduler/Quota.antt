-- ===== src/Workers/Scheduler/Quota.antt =====
-- How many jobs of a requester can be pending (`enqueue` of labos/workers/scheduler.py).
use mathlib.Core.Path.{subst}
use labos.Prelude.{
  ℕ, ◌+◌, ◌≤◌, ◌<◌, String, ◌≡◌, refl, ap, ◌∙◌, Bool, true, false, List, [], ◌∷◌, ◌++◌, keep,
  length, length-append, leb, arith, ◌==◌, string_eq, eq_iff, Bool-cases, inl, inr,
}
use labos.Db.Rows.{SchedulerJobRow}
use labos.Db.Changes.{add_job}
use labos.Db.Platform.{Platform}
use labos.Db.Session.{World, ◌>>=◌}
use labos.Workers.Scheduler.{
  SchedulerJobCreateRequest, pending_of, pending_count, new_job, add_enqueued, enqueue,
}

keep-append :
    (p : SchedulerJobRow → Bool) (rows more : List SchedulerJobRow)
    → keep p (rows ++ more) ≡ keep p rows ++ keep p more
keep-append p [] more = refl
keep-append p (r ∷ rows) more = elim (Bool-cases (p r)) [
  | inl kept ↦ rw kept (ap (λ rest. r ∷ rest) (keep-append p rows more))
  | inr other ↦ rw other (keep-append p rows more)
]

pending_count-append :
    (requester : String) (rows more : List SchedulerJobRow)
    → pending_count requester (rows ++ more)
      ≡ pending_count requester rows + pending_count requester more
unfolding pending_count
pending_count-append requester rows more =
    ap length (keep-append (pending_of requester) rows more)
    ∙ length-append (keep (pending_of requester) rows) (keep (pending_of requester) more)

below : (a b : ℕ) → leb a b ≡ false → b < a
below a b h = ground arith

module _ (requester : String) (row : SchedulerJobRow) where
  counted_own : (row.requester_id == requester) ≡ true → pending_count requester (row ∷ []) ≤ 1
  unfolding pending_count
  counted_own same = elim (Bool-cases (pending_of requester row)) [
    | inl counts ↦ rw counts (omega arith)
    | inr not_pending ↦ rw not_pending (omega arith)
  ]

  counted_other : (row.requester_id == requester) ≡ false → pending_count requester (row ∷ []) ≡ 0
  unfolding pending_count
  counted_other other = rw other refl

module _ (os : Platform) (now max_pending : ℕ) (request : SchedulerJobCreateRequest)
    (requester : String) where
  add_enqueued-bounded :
      (full : Bool) (w : World os.Disk)
      → leb max_pending (pending_count request.requester_id w.db.scheduler_jobs) ≡ full
      → pending_count requester w.db.scheduler_jobs ≤ max_pending
      → pending_count requester (add_enqueued os now request full w).1.db.scheduler_jobs
        ≤ max_pending
  unfolding add_enqueued ◌>>=◌ add_job
  add_enqueued-bounded true w test h = h
  add_enqueued-bounded false w test h =
      let row = new_job now (os.uuid4 w.drawn) request in
      let jobs = w.db.scheduler_jobs in
      let total = pending_count-append requester jobs (row ∷ []) in
      let free = below _ _ test in
      elim (Bool-cases (request.requester_id == requester)) [
        | inl same ↦
            let room =
              subst (λ r. pending_count r jobs < max_pending)
                ((eq_iff request.requester_id requester).0 same) free in
            let own = counted_own requester row same in omega (arith, total, room, own)
        | inr other ↦
            let none_more = counted_other requester row other in omega (arith, total, none_more)
      ]

  -- A job is enqueued only within its requester's quota: whatever requester had at most as many
  -- pending jobs as the quota has at most as many afterwards.
  pub enqueue-bounded :
      (w : World os.Disk)
      → pending_count requester w.db.scheduler_jobs ≤ max_pending
      → pending_count requester (enqueue os now max_pending request w).1.db.scheduler_jobs
        ≤ max_pending
  unfolding enqueue ◌>>=◌
  enqueue-bounded w h = add_enqueued-bounded _ w refl h
