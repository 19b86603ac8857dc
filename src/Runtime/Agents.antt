-- ===== src/Runtime/Agents.antt =====
-- crates/core/src/runtime.rs, `agent`: what holds of a whole run of one agent.
use kyora.Base.{
  ℕ, ◌+◌, ◌-◌, ◌*◌, ◌<◌, ◌≤◌, ◌≡◌, refl, ◌≢◌, ap, true, List, [], ◌∷◌, Text, ok, >>=-eq-ok, arith,
  length, if◌then◌else◌,
}
use kyora.Base.Words.{add32_exact, u32_mod}
use kyora.Mailbox.{Mailbox}
use package.kyora.Runtime.World.{Library, Setting, Loop, Next, Round, Run}
use package.kyora.Runtime.Conversation.{Conversation}
use package.kyora.Runtime.Turns.{turn, turns, begin, start, agent, text_block}
use package.kyora.Runtime.Steps.{Onward, more, over, turns-first, go_on-Onward}
use package.kyora.Runtime.Keeping.{user_turn-Spoken}
use package.kyora.Runtime.Answering.{loop_of}
use package.kyora.Runtime.Replies.{Turned, ended, counted, retried, turn-Turned}

module _ {V : Type 0} (j : Library V) (s : Setting V) where
  Turned-talk :
      {l : Loop V} (next : Next V)
      → Turned j s l next
      → Conversation l.history []
      → Conversation (loop_of next).history []
  Turned-talk next (ended status l' k) c = rw (k.history) c
  Turned-talk next (counted next' fits k) c = k.talk c
  Turned-talk next (retried next' fits k) c = rw (k.same.history) c

  onward :
      (P : Loop V → Type 0) (rest : Loop V → Run (Next V)) (next : Next V)
      → ((l : Loop V) → P l → rest l ≡ ok next → P (loop_of next))
      → (first : Next V) → P (loop_of first)
      → Onward j s rest next first
      → P (loop_of next)
  onward P rest next kept first p (more l h) = kept l p h
  onward P rest next kept first p (over status l e) = rw e p

  -- An invariant of one turn holds after any number of them.
  turns-invariant :
      (P : Loop V → Type 0)
      → ((r : Round V) (l : Loop V) (next : Next V)
          → P l
          → turn j s r l ≡ ok next
          → P (loop_of next))
      → (rounds : List (Round V)) (l : Loop V) (next : Next V) → P l
      → turns j s rounds l ≡ ok next
      → P (loop_of next)
  unfolding turns
  turns-invariant P step [] l next p h = let e : next ≡ Next.again l = cc in rw e p
  turns-invariant P step (r ∷ rounds) l next p h =
      let (first, e, f) = turns-first j s r rounds l next h in
      let rest = λ (n : Loop V). turns j s rounds n in
      let kept = λ (l' : Loop V) (p' : P l') (g : rest l' ≡ ok next).
        turns-invariant P step rounds l' next p' g in
      onward P rest next kept first (step r l first p e) (go_on-Onward j s rest first next f)

  -- After any number of turns, also when the agent has ended, the conversation begins with a user
  -- message, and each user message answers exactly the tool calls that were open, in their order:
  -- every call of the assistant message before it, once; no assistant message follows an open call,
  -- and none is open at the end.
  pub agent-Conversation :
      (task : Text) (m : Mailbox) (room : ℕ) (rounds : List (Round V)) (next : Next V)
      → agent j s task m room rounds ≡ ok next
      → Conversation (loop_of next).history []
  unfolding agent begin start
  agent-Conversation task m room rounds next h =
      let (l, e, f) = >>=-eq-ok (begin j s task m room) (λ l. turns j s rounds l) h in
      let k = user_turn-Spoken s (text_block task) true (start j s m room) l e in
      let opened : Conversation l.history [] =
        rw (k.added.history) (Conversation.opening k.message k.by_user k.results k.uses) in
      turns-invariant (λ l. Conversation l.history [])
        (λ r l next c t. Turned-talk next (turn-Turned j s r l next t) c) rounds l next opened f

  -- How many turns a loop can still take, those that ask again included.
  abbrev turns_left : Loop V → ℕ
  turns_left l = 2 * (s.max_turns - l.turns) + (if l.invalid_retry then 0 else 1)

  Turned-left :
      (l : Loop V) (next : Next V) (l' : Loop V)
      → s.max_turns < u32_mod
      → Turned j s l next
      → next ≡ Next.again l'
      → turns_left l' < turns_left l
  Turned-left l next l' word (ended status l₂ k) e = cc
  Turned-left l next l' word (counted next' fits k) e =
      let same : loop_of next ≡ l' = ap loop_of e in
      let more = add32_exact l.turns 1 (omega arith) in
      ground (arith, k.turns, k.retried, same, more)
  Turned-left l next l' word (retried next' fits k) e =
      let same : loop_of next ≡ l' = ap loop_of e in
      ground (arith, k.before, k.after, k.same.turns, same)

  Turned-bounded :
      (l : Loop V) (next : Next V)
      → s.max_turns < u32_mod
      → Turned j s l next
      → l.turns ≤ s.max_turns
      → (loop_of next).turns ≤ s.max_turns
  Turned-bounded l next word (ended status l₂ k) h = omega (arith, k.turns)
  Turned-bounded l next word (counted next' fits k) h =
      omega (arith, k.turns, add32_exact l.turns 1 (omega arith))
  Turned-bounded l next word (retried next' fits k) h = omega (arith, k.same.turns)

  again-Onward :
      (rest : Loop V → Run (Next V)) (first next : Next V) (l : Loop V)
      → Onward j s rest next first
      → next ≡ Next.again l
      → (m : Loop V) × (first ≡ Next.again m) × (rest m ≡ ok next)
  again-Onward rest first next l (more m h) e = (m, refl, h)
  again-Onward rest first next l (over status m d) e = cc

  turns-ends :
      (rounds : List (Round V)) (l l' : Loop V)
      → s.max_turns < u32_mod
      → turns_left l < length rounds
      → turns j s rounds l ≢ ok (Next.again l')
  unfolding turns
  turns-ends [] l l' word h e = absurd (omega arith)
  turns-ends (r ∷ rounds) l l' word h e =
      let rest = λ (n : Loop V). turns j s rounds n in
      let (first, t, f) = turns-first j s r rounds l (Next.again l') e in
      let (m, onto, g) =
        again-Onward rest first (Next.again l') l' (go_on-Onward j s rest first (Next.again l') f)
          refl in
      let fewer = Turned-left l first m word (turn-Turned j s r l first t) onto in
      turns-ends rounds m l' word (omega (arith, fewer)) g

  -- With a number of turns that is a word, an agent that is offered at least two rounds more than
  -- twice its number of turns is not left in the middle of them: its loop has ended by a status or
  -- an error, or by a panic of what it calls.
  pub agent-ends :
      (task : Text) (m : Mailbox) (room : ℕ) (rounds : List (Round V)) (l : Loop V)
      → s.max_turns < u32_mod
      → 2 * s.max_turns + 1 < length rounds
      → agent j s task m room rounds ≢ ok (Next.again l)
  unfolding agent begin start
  agent-ends task m room rounds l' word enough e =
      let (l, b, f) = >>=-eq-ok (begin j s task m room) (λ l. turns j s rounds l) e in
      let k = (user_turn-Spoken s (text_block task) true (start j s m room) l b).added in
      turns-ends rounds l l' word (ground (arith, k.turns, k.retried)) f

  -- An agent with at most a number of turns that is a word never takes more turns.
  pub agent-turns :
      (task : Text) (m : Mailbox) (room : ℕ) (rounds : List (Round V)) (next : Next V)
      → s.max_turns < u32_mod
      → agent j s task m room rounds ≡ ok next
      → (loop_of next).turns ≤ s.max_turns
  unfolding agent begin start
  agent-turns task m room rounds next word h =
      let (l, b, f) = >>=-eq-ok (begin j s task m room) (λ l. turns j s rounds l) h in
      let k = (user_turn-Spoken s (text_block task) true (start j s m room) l b).added in
      turns-invariant (λ l. l.turns ≤ s.max_turns)
        (λ r l next p t. Turned-bounded l next word (turn-Turned j s r l next t) p) rounds l next
        (omega (arith, k.turns)) f
