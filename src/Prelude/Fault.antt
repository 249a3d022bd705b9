-- ===== src/Prelude/Fault.antt =====
-- The errors of a function on fuel: one of the program's own, or that the fuel ran out, which the
-- program has no counterpart of and which is shown not to happen.
pub data Fault {ℓ} (E : Type ℓ) : Type ℓ where
  error : E → Fault E
  out_of_fuel : Fault E
