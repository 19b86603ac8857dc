-- ===== src/Ledger/Tests.antt =====
-- The ledger run on small inputs: an agent below the root reserves tokens, settles and is shut down.
use kyora.Base.{
  codes, ℕ, ◌≡◌, refl, ◌≢◌, Bool, true, false, none, some, List, [], ◌∷◌, Outcome, ok, err, panic,
  arith, get_elem?, if◌then◌else◌, contains, ◌+◌, ◌-◌, ltb, ◌<◌, ◌≤◌, ◌⊎◌, min,
}
use kyora.Base.Words.{add64, sub64}
use kyora.Base.Maps.{lookup}
use kyora.Protocol.Counters.{Usage, zero_usage, total, add}
use kyora.Protocol.{ContentBlock, ToolSpec, ModelRequest, user_text, assistant_text}
use kyora.Ledger.Estimates.{estimate, messages_cost, estimate-append}
use kyora.Provider.{AttemptCharge}
use kyora.Ledger.{
  Scope, State, Reservation, Settlement, Charge, initial, admit, reserve, settle, shutdown,
  add_reserved, charge_of,
}
use kyora.Ledger.Defaults.{Limits, min_output_tokens, default_limits, validate}
use kyora.Ledger.Ancestors.{path, Falls, path_lem}
use kyora.Ledger.Invariant.{InRange, Inv}
use kyora.Ledger.Reach.{Step, Reach, Reach-Inv, Step-Inv}
use kyora.Ledger.Budget.{
  reserve_fits, settle-reserve, settle_once, reserve_closed, reserve_total, admit_total,
}
use kyora.Ledger.Settling.{settle_total}
use kyora.Ledger.Ending.{shutdown_idem}

-- What a call returned, and the state after it.
abbrev value_of : {E A : Type 0} → A → Outcome E (A × State) → A
value_of a (ok (b, _)) = b
value_of a (err _) = a
value_of a panic = a

abbrev state_of : {E A : Type 0} → State → Outcome E (A × State) → State
state_of s (ok (_, t)) = t
state_of s (err _) = s
state_of s panic = s

abbrev limits : Limits
limits = default_limits

any_duration : ℕ → Bool
any_duration _ = true

unfoldable s0 : State
unfolding initial
s0 = initial limits

-- An agent below the root with a budget of 20,000 tokens.
unfoldable s1 : State
unfolding s0 admit
s1 = state_of s0 (admit limits s0 0 true (some 20_000))

no_reservation : Reservation
no_reservation = record { id = 0; tokens = 0; max_tokens = 0 }

no_settlement : Settlement
no_settlement = record { charged = 0; excess = 0 }

unfoldable r2 : Reservation
unfolding s1 reserve
r2 = value_of no_reservation (reserve s1 1 100 5_000)

unfoldable s2 : State
unfolding s1 reserve
s2 = state_of s1 (reserve s1 1 100 5_000)

-- The attempt used more than its reservation, and more than the agent's budget.
abbrev overrun : Charge
overrun = Charge.usage (record {
  input_tokens = 1_000;
  output_tokens = 24_000;
  cache_creation_input_tokens = 0;
  cache_read_input_tokens = 0;
})

unfoldable x3 : Settlement
unfolding s2 r2 settle
x3 = value_of no_settlement (settle s2 r2 overrun)

unfoldable s3 : State
unfolding s2 r2 settle
s3 = state_of s2 (settle s2 r2 overrun)

admitted : admit limits s0 0 true (some 20_000) ≡ ok (1, s1)
unfolding s1
admitted = refl

reserved : reserve s1 1 100 5_000 ≡ ok (r2, s2)
unfolding r2 s2
reserved = refl

settled : settle s2 r2 overrun ≡ ok (x3, s3)
unfolding x3 s3
settled = refl

limits-InRange : InRange limits
limits-InRange = record {
  depth_fits = omega arith;
  agents_fit = omega arith;
  live_fits = omega arith;
  llm_fits = omega arith;
  budget_fits = omega arith;
}

limits_valid : validate any_duration limits ≡ ok tt
unfolding validate any_duration
limits_valid = refl

reached_s1 : Reach limits s1
unfolding s0
reached_s1 = Reach.next Reach.start (Step.admitted 0 true (some 20_000) 1 admitted)

reached_s2 : Reach limits s2
unfolding s1
reached_s2 = Reach.next reached_s1 (Step.reserved 1 100 5_000 r2 (omega arith) reserved)

reached_s3 : Reach limits s3
reached_s3 = Reach.next reached_s2 (Step.settled r2 overrun x3 settled)

s1-Inv : Inv limits s1
s1-Inv = Reach-Inv limits any_duration limits-InRange limits_valid reached_s1

s2-Inv : Inv limits s2
unfolding s1
s2-Inv =
    Step-Inv limits s1 s2 limits-InRange s1-Inv
      (Step.reserved 1 100 5_000 r2 (omega arith) reserved)

s3-Inv : Inv limits s3
s3-Inv = Step-Inv limits s2 s3 limits-InRange s2-Inv (Step.settled r2 overrun x3 settled)

Reach-Inv_example : Inv limits s3
Reach-Inv_example = Reach-Inv limits any_duration limits-InRange limits_valid reached_s3

-- The agent's scope with so much used and reserved.
agent_scope : ℕ → ℕ → Scope
agent_scope used reserved = record {
  parent = some 0;
  depth = 1;
  agent = true;
  alive = true;
  admission_closed = false;
  budget = record { limit = 20_000; used = used; reserved = reserved; closed = ltb 20_000 used };
  usage = record zero_usage { input_tokens = min used 1_000; output_tokens = used - 1_000 };
  own = record zero_usage { input_tokens = min used 1_000; output_tokens = used - 1_000 };
}

agent_path : path s1.scopes 1 ≡ some (1 ∷ 0 ∷ [])
unfolding s1 path
agent_path = refl

agent_after : get_elem? s3.scopes 1 ≡ some (agent_scope 25_000 0)
unfolding s3 agent_scope total sub64 add
agent_after = refl

reserve_fits_example :
    (r2.tokens ≡ 100 + r2.max_tokens)
    × (min min_output_tokens 5_000 ≤ r2.max_tokens)
    × (r2.max_tokens ≤ 5_000)
    × (0 < r2.max_tokens)
    × (get_elem? s2.scopes 1
        ≡ some (
            if contains 1 (1 ∷ 0 ∷ [])
            then add_reserved r2.tokens (agent_scope 0 0)
            else agent_scope 0 0))
    × ((contains 1 (1 ∷ 0 ∷ []) ≡ false)
        ⊎ (((agent_scope 0 0).budget.closed ≡ false)
            × ((agent_scope 0 0).budget.used + (agent_scope 0 0).budget.reserved + r2.tokens
                ≤ (agent_scope 0 0).budget.limit)))
unfolding s1 agent_scope
reserve_fits_example =
    reserve_fits limits s1 1 100 5_000 r2 s2 1 (agent_scope 0 0) (1 ∷ 0 ∷ []) limits-InRange s1-Inv
      reserved agent_path refl

settle-reserve_example :
    ((agent_scope 25_000 0).budget.reserved ≡ (agent_scope 0 0).budget.reserved)
    × ((agent_scope 25_000 0).budget.used ≡ (
        if contains 1 (1 ∷ 0 ∷ [])
        then add64 (agent_scope 0 0).budget.used (charge_of r2.tokens overrun).0
        else (agent_scope 0 0).budget.used))
    × (lookup r2.id s3.attempts ≡ none)
    × (x3.charged ≡ (charge_of r2.tokens overrun).0)
unfolding s1 s3 agent_scope
settle-reserve_example =
    settle-reserve limits s1 1 100 5_000 r2 s2 overrun x3 s3 1 (agent_scope 0 0)
      (agent_scope 25_000 0) (1 ∷ 0 ∷ []) limits-InRange s1-Inv reserved settled agent_path refl
      agent_after

settle_once_example : settle s3 r2 (Charge.failed AttemptCharge.zero) ≡ panic
settle_once_example = settle_once s2 r2 overrun (Charge.failed AttemptCharge.zero) x3 s3 settled

reserve_closed_example : reserve s3 1 100 5_000 ≡ err "budget exhausted"
unfolding s3 path agent_scope
reserve_closed_example =
    reserve_closed limits s3 1 100 5_000 1 (agent_scope 25_000 0) (agent_scope 25_000 0)
      (1 ∷ 0 ∷ []) s3-Inv (omega arith) agent_after (refl, refl) refl refl agent_after refl

reserve_total_example : reserve s3 1 100 5_000 ≢ panic
reserve_total_example = reserve_total limits s3 1 100 5_000 s3-Inv

admit_total_example : admit limits s3 1 true none ≢ panic
admit_total_example = admit_total limits s3 1 true none s3-Inv

settle_total_example : (x : Settlement) × (s : State) × (settle s2 r2 overrun ≡ ok (x, s))
unfolding s2 r2
settle_total_example = settle_total limits s2 r2 overrun 1 5_100 s2-Inv.accounts refl

path_lem_example : (ids : List ℕ) × (path s3.scopes 1 ≡ some (1 ∷ ids)) × Falls 1 ids
unfolding s3
path_lem_example = path_lem s3.scopes 1 s3-Inv.accounts.tree (omega arith)

unfoldable s4 : State
unfolding s3 shutdown
s4 = elim (shutdown s3 1) [ ok s ↦ s | err _ ↦ s3 | panic ↦ s3 ]

shutdown_idem_example : shutdown s4 1 ≡ ok s4
unfolding s4 shutdown
shutdown_idem_example = shutdown_idem s3 1 s4 refl

-- Every content takes ten bytes.
ten_bytes : List (ContentBlock ℕ) → ℕ
ten_bytes _ = 10

two_bytes : List (ToolSpec ℕ) → ℕ
two_bytes _ = 2

request : ModelRequest ℕ
request = record {
  model = codes "m";
  system = none;
  messages = user_text (codes "a") ∷ assistant_text (codes "b") ∷ user_text (codes "c") ∷ [];
  tools = [];
  max_tokens = 100;
  depth = 0;
}

used : Usage
used = record zero_usage { input_tokens = 70; output_tokens = 30 }

estimate-append_example :
    estimate ten_bytes two_bytes request (some (used, 1))
    ≡ add64 (total used) (messages_cost ten_bytes two_bytes (user_text (codes "c") ∷ []))
unfolding request
estimate-append_example =
    estimate-append ten_bytes two_bytes request used (user_text (codes "a") ∷ [])
      (assistant_text (codes "b")) (user_text (codes "c") ∷ []) refl
