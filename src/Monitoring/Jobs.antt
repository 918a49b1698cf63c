-- ===== src/Monitoring/Jobs.antt =====
-- The jobs of the reconciler: one runs at a time.
use radio_broadcast_analysis.Prelude.{
  ℕ, suc, ◌≤◌, Bool, Option, List, [], ◌∷◌, ◌≡◌, inl, inr, arith, ltb, nat_eq, filterb, count,
  nat_Eq, string_Eq, str_eq, Bool-cases, Option-cases,
}
use radio_broadcast_analysis.Prelude.Sort.{sort_by}
use radio_broadcast_analysis.Outbox.{iso_leb}
use radio_broadcast_analysis.Monitoring.{StationJob, Store, change_job, first_job, claim_next_job}

abbrev pub is_running : StationJob → Bool
is_running j = str_eq j.status "running"

abbrev pub has_id : ℕ → StationJob → Bool
has_id k j = nat_eq j.id k

change_job-running :
    (k : ℕ) (f : StationJob → StationJob) (jobs : List StationJob)
    → count is_running jobs ≡ 0
    → count is_running (change_job k f jobs) ≤ count (has_id k) jobs
change_job-running k f [] h = omega arith
change_job-running k f (j ∷ jobs) h = elim (Bool-cases (has_id k j)) [
  | inl own ↦ rw (own) (ground (arith, h, change_job-running k f jobs))
  | inr other ↦ rw (other) (ground (arith, h, change_job-running k f jobs))
]

-- While a job id names one row at most and at most one job is running, at most one is running
-- after `claim_next_job`.
pub claim_next_job_lem :
    (now : ℕ) (db : Store)
    → ((k : ℕ) → count (has_id k) db.jobs ≤ 1)
    → count is_running db.jobs ≤ 1
    → count is_running (claim_next_job now db).1.jobs ≤ 1
unfolding claim_next_job
claim_next_job_lem now db once one = elim (Bool-cases (ltb 0 (count is_running db.jobs))) [
  | inl busy ↦ rw (busy) one
  | inr free ↦ elim (Option-cases next) [
    | inl absent ↦ rw (free, absent) one
    | inr (row, chosen) ↦
        let quiet : count is_running db.jobs ≡ 0 = ground (arith, free) in
        let claimed =
          change_job-running row.id
            (λ j. record j { status = "running"; attempts = suc j.attempts; updated_at = now })
            db.jobs quiet in
        rw (free, chosen) (omega (arith, claimed, once row.id))
  ]
]
  where
    next : Option StationJob
    next = first_job (
        sort_by (λ a b. iso_leb a.created_at b.created_at)
          (filterb (λ j. str_eq j.status "pending") db.jobs))
