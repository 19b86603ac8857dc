-- ===== src/Runtime/Tests.antt =====
-- The loop of one agent and the attempts of one request, run on small inputs.
use kyora.Base.{
  ℕ, zero, suc, Outcome, String, ◌++◌, panic, ◌≤◌, ◌≡◌, refl, ◌≢◌, Bool, true, false, Option, none,
  some, List, [], ◌∷◌, codes, ok, err, arith, length, count, leb, not, ◌&&◌, ◌==◌,
}
use kyora.Ledger.{State, Reservation, Settlement, Charge, initial, reserve, settle}
use kyora.Ledger.Invariant.{InRange, Inv}
use kyora.Ledger.Reach as Calls
use kyora.Provider.{ProviderError, AttemptCharge, is_retryable}
use kyora.Ledger.Defaults.{default_limits, validate}
use kyora.Provider.Retry.{default_policy}
use package.kyora.Runtime.Attempts.{Phase, Dispatch, Streamed, Aftermath, is_unhinted_429}
use package.kyora.Runtime.Attempting.{Progress, begun, Step, Reach}
use package.kyora.Runtime.Accounts.{Accounted}
use package.kyora.Runtime.Accounting.{Reach-Accounted}
use package.kyora.Runtime.Retrying.{is_waiting, fail_all, fail_all_lem}
use package.kyora.Runtime.Finishing.{Finished, Reach-ends}
use kyora.Truncation.{truncate}
use kyora.Protocol.{tool_uses, tool_uses_of, ContentBlock, ToolResultPart, ModelResponse}
use kyora.Protocol.Counters.{zero_usage}
use kyora.Protocol.Stop.{StopReason}
use kyora.Mailbox.{empty}
use package.kyora.Runtime.World.{Library, Answer, Check, Tools, Attempted, Round, Setting, Next}
use package.kyora.Runtime.Conversation.{Conversation}
use package.kyora.Runtime.Answering.{loop_of}
use package.kyora.Runtime.Turns.{agent, start}
use package.kyora.Runtime.Directory.{AgentEntry, resolve, kin, accepts}
use package.kyora.Runtime.Agents.{agent-Conversation, agent-ends, agent-turns}
use package.kyora.Runtime.Contracts.{Met, agent-Met}

-- JSON values are lengths of texts here, and every schema accepts a value from 1 on.
library : Library ℕ
library = record {
  empty_object = 0;
  string = λ t. length t;
  from_str = λ t. ok (length t);
  to_string = λ v. [];
  invalid_json = λ t. t;
  validate = λ schema v. elim v [ zero ↦ some (codes "empty") | suc _ ↦ none ];
}

abbrev tools : Tools ℕ
tools = record {
  get = λ name. some (record { mutating = true; truncated = true });
  validate = λ name input. none;
}

abbrev base_setting : Option ℕ → Setting ℕ
base_setting output = record {
  max_turns = 3;
  output = output;
  max_output_tokens = 32_000;
  tool_output_chars = 100;
  message_chars = 100;
  delivery_chars = 1000;
  tools = tools;
  render = λ e. e.body;
}

abbrev response : StopReason → List (ContentBlock ℕ) → ModelResponse ℕ
response reason content = record {
  id = none;
  model = codes "m";
  content = content;
  stop_reason = reason;
  usage = zero_usage;
  usage_iterations = [];
}

abbrev quiet : (Option Answer) → StopReason → List (ContentBlock ℕ) → Round ℕ
quiet answer reason content = record {
  head = Check.running;
  attempted = Attempted.answered (response reason content) [];
  calls = λ n. record {
    before = Check.running;
    given_up = false;
    output = record {
      content = ToolResultPart.text (codes "done") ∷ [];
      is_error = false;
      final_answer = answer;
    };
    after = Check.running;
  };
  after_calls = Check.running;
  results_arrive = λ m. m;
  before_end = Check.running;
  idle_arrive = λ m. m;
  wakes = [];
  after_idle = Check.running;
  end_arrive = λ m. m;
}

abbrev call_block : ContentBlock ℕ
call_block = ContentBlock.tool_use (codes "c1") (codes "read") 5

abbrev two_rounds : List (Round ℕ)
two_rounds =
    quiet none StopReason.tool_use (call_block ∷ [])
    ∷ quiet none StopReason.end_turn (ContentBlock.text (codes "bye") ∷ [])
    ∷ []

eight_rounds : List (Round ℕ)
eight_rounds =
    quiet none StopReason.pause_turn []
      ∷ quiet none StopReason.pause_turn []
      ∷ quiet none StopReason.pause_turn []
      ∷ quiet none StopReason.pause_turn []
      ∷ two_rounds
    ++ two_rounds

-- A task that is offered and committed in one turn.
abbrev submitted : List (Round ℕ)
submitted = quiet (some (Answer.value (codes "{}"))) StopReason.tool_use (call_block ∷ []) ∷ []

unfoldable run : Option ℕ → List (Round ℕ) → Next ℕ
unfolding library agent empty start truncate tool_uses tool_uses_of
run output rounds = elim (agent library (base_setting output) (codes "task") empty 100 rounds) [
  | ok next ↦ next
  | err e ↦ Next.again (start library (base_setting output) empty 0)
  | panic ↦ Next.again (start library (base_setting output) empty 0)
]

turns_taken : (loop_of (run none two_rounds)).turns ≡ 2
unfolding run
turns_taken = refl

messages_kept : length (loop_of (run none two_rounds)).history ≡ 4
unfolding run
messages_kept = refl

agent-Conversation_example : Conversation (loop_of (run none two_rounds)).history []
unfolding run
agent-Conversation_example =
    agent-Conversation library (base_setting none) (codes "task") empty 100 two_rounds
      (run none two_rounds) refl

agent-ends_example :
    agent library (base_setting none) (codes "task") empty 100 eight_rounds
    ≢ ok (Next.again (start library (base_setting none) empty 0))
unfolding eight_rounds
agent-ends_example =
    agent-ends library (base_setting none) (codes "task") empty 100 eight_rounds
      (start library (base_setting none) empty 0) (omega arith) (omega arith)

agent-turns_example : (loop_of (run none two_rounds)).turns ≤ 3
unfolding run
agent-turns_example =
    agent-turns library (base_setting none) (codes "task") empty 100 two_rounds
      (run none two_rounds) (omega arith) refl

agent-Met_example : Met library (base_setting (some 1)) 1 (loop_of (run (some 1) submitted)).answer
unfolding run
agent-Met_example =
    agent-Met library (base_setting (some 1)) 1 refl (codes "task") empty 100 submitted
      (loop_of (run (some 1) submitted)) refl

-- A request of the root whose first attempt times out and is retried.
abbrev first_phase : Phase ℕ
first_phase = Phase.waiting 0 0 32_000

reserved_first : Outcome String (Reservation × State)
unfolding reserve initial
reserved_first = reserve (initial default_limits) 0 1000 32_000

abbrev reservation : Reservation
reservation = record { id = 0; tokens = 33_000; max_tokens = 32_000 }

unfoldable after_reserve : State
unfolding reserved_first
after_reserve = elim reserved_first [
  | ok out ↦ out.1
  | err e ↦ initial default_limits
  | panic ↦ initial default_limits
]

is_reserved : reserve (initial default_limits) 0 1000 32_000 ≡ ok (reservation, after_reserve)
unfolding after_reserve
is_reserved = refl

no_jitter : ℕ → ℕ
no_jitter n = n

abbrev waits : Progress ℕ
waits = begun default_limits default_policy no_jitter 0 1000 (initial default_limits) 32_000

abbrev holds : Progress ℕ
holds = record { ledger = after_reserve; phase = Phase.holding 0 0 reservation; made = 0 ∷ [] }

request_runs :
    Reach default_limits default_policy no_jitter 0 1000 (initial default_limits) 32_000 holds
unfolding initial
request_runs =
    Reach.next Reach.here
      (Step.reserved 0 0 32_000 reservation after_reserve refl (omega arith) is_reserved)

-- Another request of the same node reserves meanwhile, and is settled.
abbrev second : Reservation
second = record { id = 1; tokens = 33_000; max_tokens = 32_000 }

second_reserved : Outcome String (Reservation × State)
unfolding reserve after_reserve
second_reserved = reserve after_reserve 0 1000 32_000

unfoldable after_second : State
unfolding second_reserved
after_second = elim second_reserved [
  | ok out ↦ out.1
  | err e ↦ initial default_limits
  | panic ↦ initial default_limits
]

is_second : reserve after_reserve 0 1000 32_000 ≡ ok (second, after_second)
unfolding after_second
is_second = refl

abbrev free_charge : Charge
free_charge = Charge.failed AttemptCharge.zero

second_settled : Outcome String (Settlement × State)
unfolding settle after_second
second_settled = settle after_second second free_charge

unfoldable after_others : State
unfolding second_settled
after_others = elim second_settled [
  | ok out ↦ out.1
  | err e ↦ initial default_limits
  | panic ↦ initial default_limits
]

abbrev second_settlement : Settlement
second_settlement = record { charged = 0; excess = 0 }

is_settled : settle after_second second free_charge ≡ ok (second_settlement, after_others)
unfolding after_others
is_settled = refl

abbrev interleaved : Progress ℕ
interleaved = record holds { ledger = after_others }

others_run :
    Reach default_limits default_policy no_jitter 0 1000 (initial default_limits) 32_000 interleaved
unfolding after_reserve
others_run =
    Reach.next
      (Reach.next request_runs (
        Step.other after_second (Calls.Step.reserved 0 1000 32_000 second (omega arith) is_second)
          (λ r h. tt)))
      (Step.other after_others (Calls.Step.settled second free_charge second_settlement is_settled)
        (λ r h. ground arith))

-- Every attempt goes idle, and its end and reset are written.
abbrev always_idle : ℕ → Dispatch ℕ × Aftermath
always_idle n = (
  Dispatch.finished (Streamed.failed ProviderError.idle_timeout),
  record {
    end_written = true;
    after = Check.running;
    partial = false;
    reset_written = true;
    delay = Check.running;
  },
)

words : InRange default_limits
words = record {
  depth_fits = omega arith;
  agents_fit = omega arith;
  live_fits = omega arith;
  llm_fits = omega arith;
  budget_fits = omega arith;
}

any_duration : ℕ → Bool
any_duration _ = true

start_sound : Inv default_limits (initial default_limits)
unfolding any_duration validate
start_sound = Calls.Reach-Inv default_limits any_duration words refl Calls.Reach.start

Reach-Accounted_example : Accounted default_limits default_policy 0 interleaved
Reach-Accounted_example =
    Reach-Accounted default_limits default_policy no_jitter 0 1000 words (omega arith)
      (initial default_limits) 32_000 start_sound others_run

Reach-ends_example :
    (q : Progress ℕ) × Finished default_limits default_policy no_jitter 0 1000 words
      (omega arith)
      (initial default_limits)
      32_000
      start_sound
      always_idle
      interleaved
      q
unfolding after_others
Reach-ends_example =
    Reach-ends default_limits default_policy no_jitter 0 1000 words (omega arith)
      (initial default_limits) 32_000 start_sound always_idle interleaved others_run (omega arith)

abbrev bad_luck : List ProviderError
bad_luck =
    ProviderError.http 429 (codes "slow down") none
    ∷ ProviderError.transport (codes "reset")
    ∷ ProviderError.http 429 (codes "slow down") (some 5)
    ∷ []

-- Three failures, one of them a 429 without a hint.
survives_three :
    is_waiting (fail_all ℕ default_policy no_jitter bad_luck (Phase.waiting 0 0 32_000)) ≡ true
unfolding fail_all is_unhinted_429
survives_three = refl

fail_all_lem_example :
    is_waiting (fail_all ℕ default_policy no_jitter bad_luck (Phase.waiting 0 0 32_000)) ≡ (
      count (λ e. not (is_retryable e)) bad_luck == 0
      && (leb (length bad_luck) 4 && leb (count is_unhinted_429 bad_luck) 1))
fail_all_lem_example =
    fail_all_lem ℕ default_policy no_jitter bad_luck 32_000 (omega arith) (omega arith)

-- The root 0 with the children 1 and 2, and a child 3 of 1.
abbrev family : List (ℕ × AgentEntry)
family =
    (0, record { parent = none; name = codes "root" })
    ∷ (1, record { parent = some 0; name = codes "left" })
    ∷ (2, record { parent = some 0; name = codes "right" })
    ∷ (3, record { parent = some 1; name = codes "left" })
    ∷ []

sibling_named : resolve family 1 (codes " right ") ≡ ok 2
unfolding resolve
sibling_named = refl

id_with_hash : resolve family 1 (codes "#3") ≡ ok 3
unfolding resolve
id_with_hash = refl

no_cousin : accepts (kin family 3 2) ≡ false
unfolding kin
no_cousin = refl

child_spawn : kin family 1 3 ≡ ok (some 3)
unfolding kin
child_spawn = refl
