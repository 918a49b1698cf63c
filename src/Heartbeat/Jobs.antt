-- ===== src/Heartbeat/Jobs.antt =====
-- `StaleJobSweeper` of app/pipeline/heartbeat.py, over the rows of the leased job tables and of
-- `audio_segments`.
use radio_broadcast_analysis.Prelude.{
  ℕ, ◌-◌, ◌*◌, String, Bool, true, false, not, ◌&&◌, ◌||◌, Option, none, some, List, [], ◌∷◌, ◌≡◌,
  refl, inl, inr, arith, if◌then◌else◌, ltb, leb, anyb, count, nat_Eq, string_Eq, str_eq,
  Bool-cases,
}
use radio_broadcast_analysis.Outbox.{iso_leb}

-- JobStatus of app/pipeline/enums.py
pub data JobStatus : Type 0 where
  pending running succeeded failed abandoned : JobStatus

abbrev pub is_running : JobStatus → Bool
is_running JobStatus.running = true
is_running _ = false

abbrev pub is_pending : JobStatus → Bool
is_pending JobStatus.pending = true
is_pending _ = false

abbrev pub is_abandoned : JobStatus → Bool
is_abandoned JobStatus.abandoned = true
is_abandoned _ = false

-- What the sweeper reads and writes of a row of a job table.
pub record Job : Type 0 where
  pub job_id : String
  pub segment_id : String
  pub status : JobStatus
  pub attempts : ℕ
  pub worker_id : Option String
  pub lease_expires_at : Option ℕ
  pub last_error_code : Option String
  pub created_at : ℕ
  pub updated_at : ℕ

pub record Segment : Type 0 where
  pub segment_id : String
  pub disposition : String
  pub updated_at : ℕ

pub record Jobs : Type 0 where
  pub transcription_jobs : List Job
  pub analysis_jobs : List Job
  pub audio_segments : List Segment

-- ORPHAN_PENDING_HOURS, in microseconds
abbrev pub orphan_pending : ℕ
orphan_pending = 96 * 3600000000

-- status='running' AND lease_expires_at_utc IS NOT NULL AND lease_expires_at_utc <= ?
abbrev pub is_lapsed : ℕ → Job → Bool
is_lapsed now j = elim j.lease_expires_at [
  | none ↦ false
  | some until ↦ is_running j.status && iso_leb until now
]

abbrev pub exhausted : ℕ → Job → Job
exhausted now j = record j {
  status = JobStatus.abandoned;
  lease_expires_at = none;
  last_error_code = some "lease_exhausted";
  updated_at = now;
}

abbrev pub returned : ℕ → Job → Job
returned now j = record j {
  status = JobStatus.pending;
  lease_expires_at = none;
  worker_id = none;
  updated_at = now;
}

-- UPDATE ... SET f WHERE p
abbrev pub update_where {ℓ} : {A : Type ℓ} → (A → Bool) → (A → A) → List A → List A
update_where p f [] = []
update_where p f (x ∷ xs) = (if p x then f x else x) ∷ update_where p f xs

-- `_sweep_table`: the two statements, in their order, and the rows that the second changes.
unfoldable pub sweep_table : ℕ → ℕ → List Job → ℕ × List Job
sweep_table max_attempts now jobs =
    let left =
      update_where (λ j. is_lapsed now j && leb max_attempts j.attempts) (exhausted now) jobs in
    let retried : Job → Bool = λ j. is_lapsed now j && ltb j.attempts max_attempts in
    (count retried left, update_where retried (returned now) left)

abbrev pub is_orphan : ℕ → Job → Bool
is_orphan now j = is_pending j.status && iso_leb j.created_at (now - orphan_pending)

abbrev pub orphaned : ℕ → Job → Job
orphaned now j = record j {
  status = JobStatus.abandoned;
  last_error_code = some "message_retention_expired";
  updated_at = now;
}

abbrev pub is_code : Option String → String → Bool
is_code none code = false
is_code (some c) code = str_eq c code

-- segment_id IN (SELECT ...)
abbrev pub is_released : List Job → Segment → Bool
is_released jobs s =
    anyb
      (λ j.
        (is_abandoned j.status && is_code j.last_error_code "message_retention_expired")
        && str_eq j.segment_id s.segment_id)
      jobs

-- disposition IN ('retained', 'deleted')
abbrev pub is_evidence : Segment → Bool
is_evidence s = str_eq s.disposition "retained" || str_eq s.disposition "deleted"

abbrev pub is_disposable : List Job → Segment → Bool
is_disposable jobs s =
    not (str_eq s.disposition "retained" || str_eq s.disposition "deleted") && is_released jobs s

-- `_sweep_orphaned_pending`
unfoldable pub sweep_orphaned_pending : ℕ → Jobs → ℕ × Jobs
sweep_orphaned_pending now db =
    let n = count (is_orphan now) db.transcription_jobs in
    let jobs = update_where (is_orphan now) (orphaned now) db.transcription_jobs in
    (
      n,
      record db {
        transcription_jobs = jobs;
        audio_segments =
            if ltb 0 n
            then update_where (is_disposable jobs)
                (λ s. record s { disposition = "disposable"; updated_at = now }) db.audio_segments
            else db.audio_segments;
      },
    )

-- `sweep`: the numbers of rows that each part reports.
unfoldable pub sweep : ℕ → ℕ → Jobs → (ℕ × ℕ × ℕ) × Jobs
unfolding sweep_table sweep_orphaned_pending
sweep max_attempts now db =
    let (t, transcriptions) = sweep_table max_attempts now db.transcription_jobs in
    let (a, analyses) = sweep_table max_attempts now db.analysis_jobs in
    let (o, db') =
      sweep_orphaned_pending now
        (record db { transcription_jobs = transcriptions; analysis_jobs = analyses }) in
    ((t, a, o), db')

-- What one pass over the table makes of a job.
abbrev pub swept : ℕ → ℕ → Job → Job
swept max_attempts now j =
    if is_lapsed now j
    then (if leb max_attempts j.attempts then exhausted now j else returned now j)
    else j

-- `sweep` leaves each segment that is retained as evidence or deleted with its disposition, so the
-- evidence is never released for cleanup.
pub sweep-retained :
    (max_attempts now : ℕ) (db : Jobs) (p : Segment → Bool)
    → let kept : Segment → Bool = λ s. is_evidence s && p s in
      count kept (sweep max_attempts now db).1.audio_segments ≡ count kept db.audio_segments
unfolding sweep sweep_orphaned_pending
sweep-retained max_attempts now db p = elim (Bool-cases (ltb 0 n)) [
  | inl some_orphan ↦ rw (some_orphan) (kept_by jobs db.audio_segments)
  | inr no_orphan ↦ rw (no_orphan) refl
]
  where
    transcriptions : List Job
    transcriptions = (sweep_table max_attempts now db.transcription_jobs).1

    n : ℕ
    n = count (is_orphan now) transcriptions

    jobs : List Job
    jobs = update_where (is_orphan now) (orphaned now) transcriptions

    kept_by :
        (gone : List Job) (segments : List Segment)
        → let kept : Segment → Bool = λ s. is_evidence s && p s in
          count kept (
            update_where
              (is_disposable gone)
              (λ s. record s { disposition = "disposable"; updated_at = now })
              segments)
          ≡ count kept segments
    kept_by gone [] = refl
    kept_by gone (s ∷ segments) = elim (Bool-cases (is_evidence s)) [
      | inl evidence ↦ rw (evidence, evidence) (ground (arith, kept_by gone segments))
      | inr other ↦ elim (Bool-cases (is_released gone s)) [
        | inl loose ↦ rw (other, loose) (kept_by gone segments)
        | inr bound ↦ rw (other, bound, other) (kept_by gone segments)
      ]
    ]
