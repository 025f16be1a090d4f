-- ===== src/Resolve/Samples.antt =====
-- Go's conversions, as far as the examples of the packages use them.
use yaml.Common.{ℕ, pos, none, some, false, Bytes, bytes_eq, codes, if◌then◌else◌}
use yaml.Resolve.Value.{Platform}

-- Conversions that know the scalar `1`, and floats that are natural numbers.
abbrev pub sample : Platform ℕ Bytes
sample = record {
  to_int = λ z. z;
  to_float = λ z. 1;
  nan = 0;
  inf = 2;
  negative_inf = 3;
  parse_float = λ s. none;
  parse_int = λ s base. if bytes_eq s (codes "1") then some (pos 1) else none;
  parse_uint = λ s base. none;
  matches_float = λ s. false;
  parse_time = λ f s. none;
}
