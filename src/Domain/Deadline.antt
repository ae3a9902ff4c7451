-- ===== src/Domain/Deadline.antt =====
-- crates/kamiroh-domain/src/deadline.rs: patience and verdicts, as data. A `Duration` is its
-- number of nanoseconds.
use kamiroh.Common.{ℕ}

pub record Deadlines : Type 0 where
  pub ack : ℕ
  pub turn : ℕ

pub data DeadlineKind : Type 0 where
  ack_wait turn_wait : DeadlineKind

pub data FailureCause : Type 0 where
  deadline_elapsed : DeadlineKind → FailureCause
  send_failed illegal_reply disconnected revoked : FailureCause
