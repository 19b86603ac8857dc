-- ===== src/Ledger/Defaults.antt =====
-- crates/core/src/defaults.rs: the validated runtime limits. Durations are in nanoseconds.
use kyora.Base.{
  ℕ, Bool, not, List, [], ◌∷◌, String, ltb, ◌==◌, if◌then◌else◌, any, contains, Outcome, ok, err,
}

pub record Limits : Type 0 where
  pub max_depth : ℕ
  pub budget_tokens : ℕ
  pub max_agents_total : ℕ
  pub max_agents_live : ℕ
  pub max_llm_calls : ℕ
  pub max_inflight_requests : ℕ
  pub max_turns : ℕ
  pub subagent_max_turns : ℕ
  pub run_timeout : ℕ
  pub cell_timeout : ℕ
  pub max_cell_timeout : ℕ
  pub request_idle : ℕ
  pub request_total : ℕ
  pub max_output_tokens : ℕ
  pub llm_max_output_tokens : ℕ
  pub tool_output_chars : ℕ
  pub mailbox_capacity : ℕ
  pub message_chars : ℕ
  pub delivery_chars : ℕ

-- MIN_OUTPUT_TOKENS
abbrev pub min_output_tokens : ℕ
min_output_tokens = 4096

abbrev seconds : ℕ
seconds = 1_000_000_000

-- `Limits::default`
abbrev pub default_limits : Limits
default_limits = record {
  max_depth = 2;
  budget_tokens = 20_000_000;
  max_agents_total = 100;
  max_agents_live = 16;
  max_llm_calls = 2000;
  max_inflight_requests = 16;
  max_turns = 200;
  subagent_max_turns = 50;
  run_timeout = 7_200_000_000_000;
  cell_timeout = 1_800_000_000_000;
  max_cell_timeout = 7_200_000_000_000;
  request_idle = 300_000_000_000;
  request_total = 1_800_000_000_000;
  max_output_tokens = 32_000;
  llm_max_output_tokens = 16_000;
  tool_output_chars = 20_000;
  mailbox_capacity = 64;
  message_chars = 20_000;
  delivery_chars = 60_000;
}

counts : Limits → List ℕ
counts l =
    l.max_depth ∷ l.budget_tokens ∷ l.max_agents_total ∷ l.max_agents_live ∷ l.max_llm_calls
    ∷ l.max_inflight_requests ∷ l.max_turns ∷ l.subagent_max_turns ∷ l.max_output_tokens
    ∷ l.llm_max_output_tokens ∷ l.tool_output_chars ∷ l.mailbox_capacity ∷ l.message_chars
    ∷ l.delivery_chars ∷ []

durations : Limits → List ℕ
durations l =
    l.run_timeout ∷ l.cell_timeout ∷ l.max_cell_timeout ∷ l.request_idle ∷ l.request_total ∷ []

-- `Limits::validate`. `fits` is `Instant::now().checked_add(d).is_some()`, by the clock's range.
unfoldable pub validate : (fits : ℕ → Bool) → Limits → Outcome String (Unit {0})
unfolding counts durations
validate fits l =
    if contains 0 (counts l)
    then err "limits must be positive integers"
    else if any (λ d. d == 0) (durations l)
    then err "durations must be positive"
    else if any (λ d. not (fits d)) (durations l)
    then err "duration is too large for a deadline"
    else if ltb l.max_cell_timeout l.cell_timeout
    then err "cell timeout exceeds maximum"
    else ok tt
