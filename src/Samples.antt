-- ===== src/Samples.antt =====
-- Concrete instances of the interfaces, for tests and examples.
use synthizer.Base.{ℕ, ◌+◌, ◌-◌, ◌*◌, ◌/◌, ltb, leb}
use synthizer.Float.{Float}
use synthizer.Router.{Biquad}

-- Whole numbers with a subtraction that stops at zero in place of floats.
abbrev pub nat_float : Float
nat_float = record {
  Real = ℕ;
  of_unsigned = λ n. n;
  fadd = λ a b. a + b;
  fsub = λ a b. a - b;
  fmul = λ a b. a * b;
  fdiv = λ a b. a / b;
  flt = ltb;
  fle = leb;
}

-- A filter that adds its configuration to each sample.
abbrev pub nat_biquad : Biquad nat_float
nat_biquad = record {
  Config = ℕ;
  Filter = ℕ;
  create = λ channels. 0;
  configure = λ cfg f. cfg;
  process_block = λ f samples. (f, λ i. samples i + f);
}
