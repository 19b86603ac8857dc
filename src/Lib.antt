-- ===== src/Lib.antt =====
-- Kyora, an agent runtime in Rust: its agents' loop, budgets, mailboxes and model streams, the state of
-- its terminal interface, and the redaction of credentials.
--
-- The program and the files. A tree of agents runs on a model provider. Every node has a scope in
-- the budget ledger; before a model request the runtime reserves tokens on the node's scope and on
-- all of its ancestors, and afterwards settles the reservation with what was used. Agents send one
-- another envelopes through mailboxes. A provider answers with a stream of events, which the
-- accumulator makes into one response; bytes of the Anthropic service come in server-sent events.
--
-- - Protocol (crates/protocol/src/lib.rs): messages, content blocks, requests, responses, stream
--   events; Protocol/Counters is Usage, Protocol/Stop is StopReason and its wire form.
-- - Provider (crates/providers/src/lib.rs, retry.rs): ProviderError, AttemptCharge, RetryPolicy.
-- - Ledger (crates/core/src/ledger.rs): Ledger's methods as functions of the State that its mutex
--   protects: admit, reserve, settle, close_admission, shutdown, snapshot, usage, and path in
--   Ledger/Ancestors, estimate in Ledger/Estimates. Ledger/Defaults is Limits of
--   crates/core/src/defaults.rs. Ledger/Reach is the step relation: any interleaving of calls is a
--   sequence of them.
-- - Mailbox (crates/core/src/messages.rs): Mailbox's methods as functions of its State; the field
--   `version` is the watch counter, `expect` is expect_child. Mailbox/Takings is the loop of take,
--   Mailbox/Texts what a model is shown, Mailbox/History the step relation with what was accepted
--   and what was handed over.
-- - Runtime (crates/core/src/runtime.rs): the loop of one agent, the attempts of one request, and the
--   directory of the agents.
--   Runtime/World is its data; Runtime/Calls the tool calls of a turn with `accept`;
--   Runtime/Deliveries message, user_turn, deliver and idle; Runtime/Turns the loop itself, in which
--   `turn` is one round and `agent` the whole. Runtime/Attempts is what `attempts` makes of one
--   attempt, Runtime/Attempting its steps among the other callers of the ledger, Runtime/Accounts what
--   is kept of them, Runtime/Finishing how a request goes on to its end, and Runtime/Retrying failures
--   in a row. Runtime/Directory is resolve and kin.
-- - Accumulator (crates/providers/src/accumulator.rs): push, finish and collect.
-- - Scripted (crates/providers/src/fake.rs): Matcher, Rule, respond and response_stream, the last as
--   the list of its events.
-- - Sse (crates/providers/src/anthropic/sse.rs): Parser::feed and Parser::line; Event's `data` is
--   data_text. Sse/Utf8 is std::str::from_utf8. Sse/Lines splits a whole stream into lines, without a
--   parser's state; Sse/Chunked has the calls of feed for a stream in chunks (the loop of stream.rs),
--   where the events of a call are given before the next call, and an error gives none of its own.
-- - Truncation (crates/core/src/tool.rs): truncate.
-- - Toolset (crates/core/src/tool.rs): Toolset with new, with_own_validation, select, specs, validate
--   (validate_call) and get (get_tool).
-- - Tui (crates/tui/src/app.rs, event.rs): the state of the terminal interface. Tui/Applying is apply,
--   cancel_running and begin_turn, Tui/Rows tree_rows, Tui/Keys handle_key.
-- - Redaction (crates/mcp/src/secrets.rs), on the bytes of a text: Redaction/Spans is Spans with new,
--   push, emit and finish; Redaction/Escapes is Decoded::new, unescape, unicode and hex4;
--   Redaction/Mask says byte by byte what redaction means, Redaction/Views where the bytes of a
--   decoded text come from.
-- - Base: lists, maps, words, texts and results that these share.
--
-- Conventions. A method that returns an error is a function into Outcome, whose `panic` is an
-- `expect` that fails or an index out of bounds; the state after a panic is not modelled, and after
-- an error it is the state before, save in Mailbox, whose calls always return a state. Numbers
-- are natural; u32 and u64 sums and differences wrap as in the release profile (Base/Words), and
-- usize is u64. A string is the list of its code points, and its byte length is that of its UTF-8
-- form. A BTreeMap is an association list that is kept in order, a BTreeSet an ordered list, or
-- any list where only membership is asked.
-- Durations are in nanoseconds.
--
-- Fuel. Ledger/Ancestors walks to the root on fuel, the number of scopes; parents are older than
-- their children, so it is enough. The decimal digits of a number run on the number plus one. The
-- loop of truncate runs on the cap plus one, since it keeps fewer characters in each round. The loop
-- of an agent runs over the rounds that it is offered. The tree of the interface is walked on fuel,
-- one more than its nodes, since a node is pushed once. Escapes are decoded on the length of the
-- text, since a round uses a byte. Every other loop is structural.
--
-- Parameters. serde_json is the record Accumulator.Json of five operations. The random factor of
-- the backoff is the function `jitter`, which does not lengthen a delay. Whether a duration fits the
-- clock is `fits`. The size of a rendered envelope and the choice of envelopes are the arguments
-- `size` and `pick` of take, as in the source. An agent meets a list of rounds: what its checks of
-- the token and the deadline see, how its requests end, what its tools return, what arrives in its
-- mailbox, and how many records the trace still takes. serde_json and tool::validate are the record
-- Runtime.World.Library; the editor of tui_textarea is the record Tui.Keys.Editor; the matches that
-- aho_corasick finds are an argument, in order of their ends. The tools with their validation are
-- the record Tools. The estimate has the lengths of serialized contents and tools as `content_len`
-- and `tools_len`.
--
-- Assumed of the histories: fewer than 2^64 attempts are numbered, and a plain message is pushed
-- to a mailbox only on a reservation, as the runtime does. The other callers of the ledger do not
-- settle the attempt that a request holds: a Reservation is not Clone, and the guard of the request
-- owns it (the constructor `other` of Runtime.Attempting.Step asks for that).
--
-- Not modelled: the rest of the asynchronous runtime (spawning, waiting, sending and
-- run_node of runtime.rs, recursion.rs, agent_tools.rs), sessions and traces, validate and
-- check_schema of tool.rs and the tools, the MCP client but for redaction, the HTTP client and the
-- mapping of wire events, the drawing and signals of the terminal interface and the command line,
-- which are input and output or tasks around these parts; and cancellation of a scripted stream.
pub mod Base
pub mod Protocol
pub mod Provider
pub mod Ledger
pub mod Mailbox
pub mod Runtime
pub mod Tui
pub mod Accumulator
pub mod Scripted
pub mod Sse
pub mod Truncation
pub mod Toolset
pub mod Redaction
