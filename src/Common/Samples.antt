-- ===== src/Common/Samples.antt =====
-- Concrete values for tests: floats as natural numbers, with the truncated operations of ℕ.
use Prim.Native.Nat.{ℕ, ◌+◌, ◌-◌, ◌*◌, ◌/◌}
use llm_rl_cpu_poc.Common.Tests.{nat_beq, ltb, leb}
use llm_rl_cpu_poc.Common.Float.{Float}

abbrev pub scaled : Float
scaled = record {
  F = ℕ;
  zero = 0;
  one = 1;
  add = λ a b. a + b;
  sub = λ a b. a - b;
  mul = λ a b. a * b;
  div = λ a b. a / b;
  neg = λ a. 0;
  exp = λ a. 1;
  eq = nat_beq;
  lt = ltb;
  le = leb;
  of_nat = λ n. n;
}
