-- ===== src/History/Stepped.antt =====
-- The calls of a program, step by step.
use funtrace.Prelude.{Option}
