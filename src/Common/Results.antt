-- ===== src/Common/Results.antt =====
-- Fallible results: Go's `(value, error)` pairs of which one is set.
pub data Result (E A : Type 0) : Type 0 where
  ok : A → Result E A
  err : E → Result E A
