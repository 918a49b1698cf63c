-- ===== src/Heartbeat/Tests.antt =====
-- Heartbeats and jobs at concrete rows.
use radio_broadcast_analysis.Prelude.{
  ℕ, ◌<◌, String, true, ◌&&◌, Option, none, some, List, [], ◌∷◌, ◌≡◌, refl, arith, count, nat_Eq,
  string_Eq, str_eq,
}
use radio_broadcast_analysis.Prelude.Sort.{sort_by, insert_by}
use radio_broadcast_analysis.Prelude.Dict.{get, put, contains}
use radio_broadcast_analysis.Heartbeat.{
  Worker, is_live, snapshot, bucket_all, holders, greatest_count, tally, absent_from, coverage_of,
  shard_coverage,
}
use radio_broadcast_analysis.Heartbeat.Coverage.{holds_index, shard_coverage-healthy}
use radio_broadcast_analysis.Heartbeat.Jobs.{
  JobStatus, Job, Jobs, sweep, is_evidence, sweep-retained,
}

abbrev listener : String → ℕ → ℕ → Worker
listener id index seen = record {
  worker_id = id;
  role = "listener";
  shard_index = index;
  shard_count = 2;
  status = "ok";
  detail = [];
  pipeline_mode = "live";
  started_at = 0;
  last_seen = seen;
}

abbrev workers : List Worker
workers = listener "b" 1 9000000 ∷ listener "a" 0 8000000 ∷ listener "old" 1 1000000 ∷ []

workers_healthy : (shard_coverage 5000000 10000000 "listener" workers).healthy ≡ true
unfolding shard_coverage holders snapshot bucket_all sort_by insert_by coverage_of tally
    greatest_count absent_from get put contains
workers_healthy = refl

two_expected : 1 < (shard_coverage 5000000 10000000 "listener" workers).expected
unfolding shard_coverage holders snapshot bucket_all sort_by insert_by coverage_of tally
    greatest_count absent_from get put contains
two_expected = omega arith

shard_coverage-healthy_example :
    count (λ w. holds_index 1 w && (str_eq w.role "listener" && is_live 5000000 10000000 w)) workers
    ≡ 1
shard_coverage-healthy_example =
    shard_coverage-healthy 5000000 10000000 "listener" workers 1 workers_healthy two_expected

abbrev job : JobStatus → ℕ → Option ℕ → Job
job status attempts lease = record {
  job_id = "job";
  segment_id = "segment";
  status = status;
  attempts = attempts;
  worker_id = some "worker";
  lease_expires_at = lease;
  last_error_code = none;
  created_at = 1000000;
  updated_at = 1000000;
}

abbrev jobs : List Job
jobs =
    job JobStatus.running 1 (some 2000000)
    ∷ job JobStatus.running 5 (some 2000000)
    ∷ job JobStatus.pending 0 none
    ∷ []

abbrev database : Jobs
database = record {
  transcription_jobs = jobs;
  analysis_jobs = [];
  audio_segments =
      record { segment_id = "segment"; disposition = "retained"; updated_at = 1000000 } ∷ [];
}

sweep-retained_example :
    count (λ s. is_evidence s && true) (sweep 5 400000000000 database).1.audio_segments
    ≡ count (λ s. is_evidence s && true) database.audio_segments
sweep-retained_example = sweep-retained 5 400000000000 database (λ s. true)
