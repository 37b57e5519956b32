-- ===== src/Errors.antt =====
-- The exceptions of backend/src/shared/domain/exceptions.py, and what a call of a method ends in.

-- The classes below `DomainError`, without their messages.
pub data DomainError : Type 0 where
  not_found policy_violation validation_error conflict_error : DomainError
  rate_limit_error blockchain_simulation_error : DomainError
  authentication_error authorization_error circuit_open_error : DomainError

pub data Result {ℓ} (A : Type ℓ) : Type ℓ where
  ok : A → Result A
  err : DomainError → Result A
