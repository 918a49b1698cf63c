-- ===== src/Inbox/Failures.antt =====
-- app/pipeline/errors.py: the classes of failure, and whether redelivery could help.
use radio_broadcast_analysis.Prelude.{
  ℕ, String, Bool, true, false, Option, none, some, List, [], ◌∷◌, take, nat_Eq, string_Eq,
}

pub data ErrorClass : Type 0 where
  base retryable database_unavailable resource_exhausted queue_unavailable : ErrorClass
  upstream_unavailable transcription_failed analysis_failed permanent : ErrorClass
  invalid_message unsupported_schema message_too_large segment_missing : ErrorClass
  checksum_mismatch segment_access unsupported_model classifier_unavailable : ErrorClass
  model_verification circuit_open : ErrorClass

-- `retryable`, inherited from RetryableError
unfoldable pub is_retryable : ErrorClass → Bool
is_retryable ErrorClass.retryable = true
is_retryable ErrorClass.database_unavailable = true
is_retryable ErrorClass.resource_exhausted = true
is_retryable ErrorClass.queue_unavailable = true
is_retryable ErrorClass.upstream_unavailable = true
is_retryable ErrorClass.transcription_failed = true
is_retryable ErrorClass.analysis_failed = true
is_retryable ErrorClass.circuit_open = true
is_retryable _ = false

unfoldable pub code_of : ErrorClass → String
code_of ErrorClass.base = "pipeline_error"
code_of ErrorClass.retryable = "retryable"
code_of ErrorClass.database_unavailable = "database_unavailable"
code_of ErrorClass.resource_exhausted = "resource_exhausted"
code_of ErrorClass.queue_unavailable = "queue_unavailable"
code_of ErrorClass.upstream_unavailable = "upstream_unavailable"
code_of ErrorClass.transcription_failed = "transcription_failed"
code_of ErrorClass.analysis_failed = "analysis_failed"
code_of ErrorClass.permanent = "permanent"
code_of ErrorClass.invalid_message = "invalid_message"
code_of ErrorClass.unsupported_schema = "unsupported_schema"
code_of ErrorClass.message_too_large = "message_too_large"
code_of ErrorClass.segment_missing = "segment_missing"
code_of ErrorClass.checksum_mismatch = "checksum_mismatch"
code_of ErrorClass.segment_access = "segment_access_denied"
code_of ErrorClass.unsupported_model = "unsupported_model"
code_of ErrorClass.classifier_unavailable = "classifier_unavailable"
code_of ErrorClass.model_verification = "model_verification_failed"
code_of ErrorClass.circuit_open = "circuit_open"

pub record PipelineError : Type 0 where
  pub error_class : ErrorClass
  pub message : List ℕ
  pub detail : Option (List ℕ)

pub record FailureRecord : Type 0 where
  pub code : String
  pub retryable : Bool
  pub message : List ℕ
  pub detail : Option (List ℕ)

abbrev pub or_none : List ℕ → Option (List ℕ)
or_none [] = none
or_none (c ∷ cs) = some (c ∷ cs)

abbrev pub or_blank : Option (List ℕ) → List ℕ
or_blank none = []
or_blank (some text) = text

-- `as_failure_record`
unfoldable pub as_failure_record : PipelineError → FailureRecord
unfolding is_retryable code_of
as_failure_record e = record {
  code = code_of e.error_class;
  retryable = is_retryable e.error_class;
  message = take 500 e.message;
  detail = or_none (take 2000 (or_blank e.detail));
}
