-- ===== src/Monitoring/Tests.antt =====
-- Managed stations and their jobs at concrete rows.
use radio_broadcast_analysis.Prelude.{
  ℕ, ◌≤◌, false, Option, none, some, [], ◌∷◌, ◌≡◌, refl, arith, count, All, nat_Eq, string_Eq,
}
use radio_broadcast_analysis.Monitoring.{
  ManagedStation, StationJob, Store, references, claim_next_job, enqueue_job, stations_due_for_stop,
  recompute_reference_counts,
}
use radio_broadcast_analysis.Monitoring.Stopping.{recompute-due}
use radio_broadcast_analysis.Monitoring.Jobs.{is_running, claim_next_job_lem}

abbrev station : ℕ → Option ℕ → ManagedStation
station id stop_after = record {
  id = id;
  desired_state = "active";
  actual_state = "active";
  legacy_pinned = false;
  active_campaign_count = 1;
  stop_after = stop_after;
  updated_at = 0;
}

abbrev waiting : StationJob
waiting = record {
  id = 1;
  managed_station_id = 1;
  action = "probe";
  status = "pending";
  attempts = 0;
  last_error = none;
  created_at = 0;
  updated_at = 0;
}

-- One station of a campaign that is active, and one of a campaign that is not.
abbrev store : Store
store = record {
  stations = station 1 (some 1000000) ∷ station 2 none ∷ [];
  jobs = waiting ∷ [];
  last_job = 1;
  members = ("spring", 1) ∷ ("autumn", 2) ∷ [];
  active_campaigns = "spring" ∷ [];
}

recompute-due_example :
    All
      (λ r. (references store r.id ≡ 0) × (r.legacy_pinned ≡ false))
      (stations_due_for_stop 9000000 (recompute_reference_counts 2000000 5000000 store).1)
recompute-due_example = recompute-due 2000000 5000000 9000000 store

claim_next_job_lem_example : count is_running (claim_next_job 3000000 store).1.jobs ≤ 1
claim_next_job_lem_example = claim_next_job_lem 3000000 store (λ k. ground arith) (omega arith)

-- A second request for a pending job gives the job that is there.
collapsed : (enqueue_job 4000000 1 "probe" store).0 ≡ 1
unfolding enqueue_job
collapsed = refl
