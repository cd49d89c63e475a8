-- ===== src/Prelude/Results.antt =====
-- What a method that raises returns: an error, or a value.
pub data Result (E A : Type 0) : Type 0 where
  err : E → Result E A
  ok : A → Result E A
