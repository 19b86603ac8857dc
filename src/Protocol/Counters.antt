-- ===== src/Protocol/Counters.antt =====
-- crates/protocol/src/lib.rs, `Usage`: the four token counters and their sum.
use kyora.Base.{ℕ, ◌≡◌, arith}
use kyora.Base.Words.{add64}

pub record Usage : Type 0 where
  pub input_tokens : ℕ
  pub output_tokens : ℕ
  pub cache_creation_input_tokens : ℕ
  pub cache_read_input_tokens : ℕ

abbrev pub zero_usage : Usage
zero_usage = record {
  input_tokens = 0;
  output_tokens = 0;
  cache_creation_input_tokens = 0;
  cache_read_input_tokens = 0;
}

-- `Usage::total`
unfoldable pub total : Usage → ℕ
unfolding add64
total u =
    add64 (add64 (add64 u.input_tokens u.output_tokens) u.cache_creation_input_tokens)
      u.cache_read_input_tokens

-- `Usage::add` and `Usage::add_assign`
unfoldable pub add : Usage → Usage → Usage
unfolding add64
add u v = record {
  input_tokens = add64 u.input_tokens v.input_tokens;
  output_tokens = add64 u.output_tokens v.output_tokens;
  cache_creation_input_tokens = add64 u.cache_creation_input_tokens v.cache_creation_input_tokens;
  cache_read_input_tokens = add64 u.cache_read_input_tokens v.cache_read_input_tokens;
}

-- The total of a sum of usages is the sum of their totals, modulo 2^64.
pub total-add : (u v : Usage) → total (add u v) ≡ add64 (total u) (total v)
unfolding total add
total-add u v = omega arith
