-- ===== src/Domain/Batch.antt =====
-- internal/domain/batch.go
use event_driven_notificatio.Prelude.{ℕ, String, List}
use event_driven_notificatio.Domain.Notification.{Uuid}

abbrev pub max_batch_size : ℕ
max_batch_size = 1000

pub record BatchError : Type 0 where
  pub index : ℕ
  pub message : String

pub record BatchResult : Type 0 where
  pub batch_id : Uuid
  pub total : ℕ
  pub accepted : ℕ
  pub rejected : ℕ
  pub notifications : List Uuid
  pub errors : List BatchError
