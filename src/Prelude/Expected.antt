-- ===== src/Prelude/Expected.antt =====
-- include/FWA/Error.h: std::expected with an IOKitError. `returned` carries a code that a
-- framework call gave.
use Prim.Native.Nat.{ℕ}

-- Return codes of IOKit that the source turns into an IOKitError by name.
pub data IoReturn : Type 0 where
  timeout bad_response not_permitted unsupported internal_error invalid_argument : IoReturn
  underrun general_error : IoReturn

pub data IoKitError : Type 0 where
  bad_argument no_memory not_ready busy : IoKitError
  from_io_return : IoReturn → IoKitError
  returned : ℕ → IoKitError

pub data Expected {ℓ} (A : Type ℓ) : Type ℓ where
  value : A → Expected A
  unexpected : IoKitError → Expected A
