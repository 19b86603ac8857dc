-- ===== src/Mailbox/Takings.antt =====
-- crates/core/src/messages.rs, `take`: one delivery from a queue, as the loop over its envelopes.
use kyora.Base.{
  ℕ, Bool, true, false, not, ◌&&◌, ◌||◌, Option, none, some, List, [], ◌∷◌, ◌++◌, leb, ltb, ◌==◌,
  if◌then◌else◌,
}
use kyora.Base.Words.{add64}
use kyora.Base.Maps.{lookup, insert}
use package.kyora.Mailbox.Envelopes.{Envelope, MessageKind}

pub record Batch : Type 0 where
  pub taken : List Envelope
  pub left : List (ℕ × ℕ)
  pub queued : ℕ

-- The variables of the loop.
pub record Taking : Type 0 where
  pub taken : List Envelope
  pub left : List (ℕ × ℕ)
  pub rest : List Envelope
  pub used : ℕ
  pub is_full : Bool

abbrev pub is_message_kind : MessageKind → Bool
is_message_kind MessageKind.message = true
is_message_kind _ = false

unfoldable pub is_message : Envelope → Bool
is_message e = is_message_kind e.kind

-- `BTreeSet::insert`
unfoldable pub insert_id : ℕ → List ℕ → List ℕ
insert_id n [] = n ∷ []
insert_id n (m ∷ ms) = if n == m then m ∷ ms else if ltb n m then n ∷ m ∷ ms else m ∷ insert_id n ms

-- `BTreeSet::remove`
unfoldable pub remove_id : ℕ → List ℕ → List ℕ
remove_id n [] = []
remove_id n (m ∷ ms) = if n == m then remove_id n ms else m ∷ remove_id n ms

abbrev pub or_zero : Option ℕ → ℕ
or_zero none = 0
or_zero (some n) = n

-- `*left.entry(from).or_default() += 1`
unfoldable pub bump : ℕ → List (ℕ × ℕ) → List (ℕ × ℕ)
unfolding add64
bump from left = insert from (add64 (or_zero (lookup from left)) 1) left

unfoldable pub start_taking : ℕ → Taking
start_taking turn = record { taken = []; left = []; rest = []; used = turn; is_full = false }

abbrev pub none_yet : List Envelope → Bool
none_yet [] = true
none_yet (_ ∷ _) = false

-- Whether the next selected envelope still fits.
unfoldable pub fits : ℕ → (Envelope → ℕ) → Bool → Envelope → Taking → Bool
unfolding add64
fits budget size fresh e t =
    not t.is_full && ((fresh && none_yet t.taken) || leb (add64 t.used (size e)) budget)

-- One round of the loop.
unfoldable pub take_one : ℕ → (Envelope → Bool) → (Envelope → ℕ) → Bool → Envelope → Taking → Taking
unfolding fits bump add64
take_one budget pick size fresh e t =
    if pick e
    then (if fits budget size fresh e t
        then record t { used = add64 t.used (size e); taken = t.taken ++ e ∷ [] }
        else record t { is_full = true; left = bump e.from t.left; rest = t.rest ++ e ∷ [] })
    else record t { rest = t.rest ++ e ∷ [] }

unfoldable pub run_take :
    ℕ → (Envelope → Bool) → (Envelope → ℕ) → Bool → List Envelope → Taking → Taking
unfolding take_one
run_take budget pick size fresh [] t = t
run_take budget pick size fresh (e ∷ es) t =
    run_take budget pick size fresh es (take_one budget pick size fresh e t)

-- The agents whose outcome was handed over.
unfoldable pub see_all : List Envelope → List ℕ → List ℕ
unfolding is_message insert_id
see_all [] seen = seen
see_all (e ∷ es) seen = see_all es (if is_message e then seen else insert_id e.from seen)
