-- ===== src/Domain.antt =====
-- internal/domain/types.go: statuses, continuations, terminal outcomes and transitions.
pub mod Status
pub mod Errors
pub mod Continuation
pub mod Completion
pub mod Transition
