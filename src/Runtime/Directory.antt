-- ===== src/Runtime/Directory.antt =====
-- crates/core/src/runtime.rs, `resolve` and `kin`: how one agent addresses another. An error is the
-- message of an InvalidRequest.
use kyora.Base.{
  ℕ, ◌+◌, ◌*◌, ◌-◌, ◌≡◌, refl, Bool, true, false, not, ◌&&◌, ◌||◌, Option, none, some, List, [],
  ◌∷◌, ◌++◌, Text, codes, decimal, text_eq, trim, arith, ltb, ◌==◌, if◌then◌else◌, Outcome, ok, err,
}
use kyora.Base.Words.{u32_mod}
use kyora.Base.Maps.{lookup}
use kyora.Mailbox.{is_empty}
use kyora.Sse.{all_digits}

-- `AgentEntry`, without the handles of its task.
pub record AgentEntry : Type 0 where
  pub parent : Option ℕ
  pub name : Text

abbrev pub digits_from : ℕ → Text → ℕ
digits_from n [] = n
digits_from n (c ∷ text) = digits_from (n * 10 + (c - 48)) text

abbrev pub in_u32 : ℕ → Option ℕ
in_u32 n = if ltb n u32_mod then some n else none

abbrev pub without_plus : Text → Text
without_plus [] = []
without_plus (c ∷ text) = if c == 43 then text else c ∷ text

-- `text.parse::<u32>()`
unfoldable pub parse_u32 : Text → Option ℕ
unfolding all_digits
parse_u32 text =
    let digits = without_plus text in
    if not (is_empty digits) && all_digits digits then in_u32 (digits_from 0 digits) else none

-- `address.strip_prefix('#').unwrap_or(address)`
abbrev pub without_hash : Text → Text
without_hash [] = []
without_hash (c ∷ text) = if c == 35 then text else c ∷ text

abbrev pub is_id : Option ℕ → ℕ → Bool
is_id none id = false
is_id (some a) id = a == id

abbrev pub same_parent : Option ℕ → Option ℕ → Bool
same_parent none b = false
same_parent (some a) b = is_id b a

-- Whether an agent is this agent's parent, child or sibling of the name.
unfoldable pub is_named : ℕ → Option ℕ → Text → ℕ → AgentEntry → Bool
unfolding text_eq
is_named self parent address id entry =
    not (id == self)
    && (not (is_empty entry.name)
        && (text_eq entry.name address
            && (is_id parent id || (is_id entry.parent self || same_parent parent entry.parent))))

unfoldable pub named : ℕ → Option ℕ → Text → List (ℕ × AgentEntry) → List ℕ
unfolding is_named
named self parent address [] = []
named self parent address ((id, entry) ∷ agents) =
    let rest = named self parent address agents in
    if is_named self parent address id entry then id ∷ rest else rest

-- The one agent of a name.
unfoldable pub only : Text → List ℕ → Outcome Text ℕ
only address [] = err (codes "unknown agent: " ++ address)
only address (id ∷ []) = ok id
only address (_ ∷ _ ∷ _) = err (codes "ambiguous agent name: " ++ (address ++ codes "; use its id"))

abbrev pub parent_of : Option AgentEntry → Option ℕ
parent_of none = none
parent_of (some entry) = entry.parent

abbrev pub or_root : Option ℕ → Outcome Text ℕ
or_root none = err (codes "the root agent has no parent")
or_root (some parent) = ok parent

abbrev pub by_id : Option ℕ → Outcome Text ℕ → Outcome Text ℕ
by_id none named = named
by_id (some id) named = ok id

-- `NodeCtx::resolve`
unfoldable pub resolve : List (ℕ × AgentEntry) → ℕ → Text → Outcome Text ℕ
unfolding parse_u32 named only text_eq trim
resolve agents self text =
    let address = trim text in
    let parent = parent_of (lookup self agents) in
    if text_eq address (codes "parent")
    then or_root parent
    else by_id (parse_u32 (without_hash address)) (only address (named self parent address agents))

-- `NodeCtx::kin` of two agents that are in the directory: the spawn that a message belongs to.
unfoldable pub spawn_of : ℕ → ℕ → Option ℕ → Option ℕ → Outcome Text (Option ℕ)
spawn_of self to mine its =
    if to == self
    then err (codes "cannot send a message to yourself")
    else if is_id mine to
    then ok (some self)
    else if is_id its self
    then ok (some to)
    else if same_parent mine its
    then ok none
    else err
        (codes "agent " ++ (decimal to ++ codes " is not this agent's parent, child or sibling"))

unfoldable pub kin_of : ℕ → ℕ → Option AgentEntry → Option AgentEntry → Outcome Text (Option ℕ)
unfolding spawn_of
kin_of self to none target = err (codes "unknown agent: " ++ decimal to)
kin_of self to (some me) none = err (codes "unknown agent: " ++ decimal to)
kin_of self to (some me) (some target) = spawn_of self to me.parent target.parent

-- `NodeCtx::kin`
unfoldable pub kin : List (ℕ × AgentEntry) → ℕ → ℕ → Outcome Text (Option ℕ)
unfolding kin_of
kin agents self to = kin_of self to (lookup self agents) (lookup to agents)

abbrev pub accepts : Outcome Text (Option ℕ) → Bool
accepts (ok spawn) = true
accepts _ = false

same_parent_sym : (a b : Option ℕ) → same_parent a b ≡ same_parent b a
same_parent_sym none none = refl
same_parent_sym none (some b) = refl
same_parent_sym (some a) none = refl
same_parent_sym (some a) (some b) = ground arith

spawn_of_sym : (a b : ℕ) (p q : Option ℕ) → accepts (spawn_of a b p q) ≡ accepts (spawn_of b a q p)
unfolding spawn_of
spawn_of_sym a b p q = ground (arith, same_parent_sym p q)

kin_of_sym :
    (a b : ℕ) (x y : Option AgentEntry) → accepts (kin_of a b x y) ≡ accepts (kin_of b a y x)
unfolding kin_of
kin_of_sym a b none none = refl
kin_of_sym a b none (some y) = refl
kin_of_sym a b (some x) none = refl
kin_of_sym a b (some x) (some y) = spawn_of_sym a b x.parent y.parent

-- An agent may address another exactly when that one may address it.
pub kin_sym :
    (agents : List (ℕ × AgentEntry)) (a b : ℕ) → accepts (kin agents a b) ≡ accepts (kin agents b a)
unfolding kin
kin_sym agents a b = kin_of_sym a b (lookup a agents) (lookup b agents)
