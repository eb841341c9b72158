-- ===== src/Idempotency.antt =====
-- common/idempotency/idempotent-operation.ts: operations that act once under a key.
pub mod Values
pub mod Canonical
pub mod Operation
pub mod Sorting
pub mod Alike
pub mod Quoting
pub mod Digits
pub mod Scopes
pub mod Replays
pub mod Once
pub mod Resending
pub mod Retrying
