-- ===== src/Mailbox/History.antt =====
-- crates/core/src/messages.rs, a mailbox over its lifetime: sequences of calls, with the envelopes
-- that were accepted and those that were handed over.
use kyora.Base.{
  ℕ, ◌+◌, ◌<◌, ◌≡◌, refl, sym, ap, Bool, true, false, List, [], ◌∷◌, ◌++◌, arith, count,
  count-append,
}
use kyora.Base.Words.{u64_mod}
use kyora.Mailbox.{
  Envelope, Mailbox, Batch, Idle, take, is_message, empty, wake, reserve, expect_child, consume,
  enqueue, push, stage, saw, charge, new_turn, idle, close,
}
use kyora.Mailbox.Capacity.{
  Inv, take-count, empty-Inv, reserve-Inv, push-Inv, take-Inv, stage-Inv, charge-Inv, idle-Inv,
}

-- What an idle agent was given.
abbrev pub delivered : Idle → List Envelope
delivered (Idle.deliver batch) = batch.taken
delivered Idle.wait = []
delivered Idle.done = []

-- One call, with the envelopes that it accepted and those that it handed over or gave back.
-- A plain message is pushed on a reservation.
pub data Step (capacity : ℕ) (m m' : Mailbox) (accepted handed : List Envelope) : Type 0 where
  reserved :
      m' ≡ (reserve m capacity).1 → accepted ≡ [] → handed ≡ [] → Step capacity m m' accepted handed
  pushed :
      (e : Envelope)
      → (is_message e ≡ true → 0 < m.reserved)
      → push m e ≡ (true, m')
      → accepted ≡ e ∷ []
      → handed ≡ []
      → Step capacity m m' accepted handed
  refused :
      (e : Envelope)
      → (is_message e ≡ true → 0 < m.reserved)
      → push m e ≡ (false, m')
      → accepted ≡ []
      → handed ≡ []
      → Step capacity m m' accepted handed
  expected :
      (c : ℕ)
      → m' ≡ expect_child m c
      → accepted ≡ []
      → handed ≡ []
      → Step capacity m m' accepted handed
  staged :
      (a : ℕ)
      → m' ≡ (stage m a).1
      → accepted ≡ []
      → handed ≡ []
      → Step capacity m m' accepted handed
  marked : (a : ℕ) → m' ≡ saw m a → accepted ≡ [] → handed ≡ [] → Step capacity m m' accepted handed
  charged :
      (cost budget : ℕ)
      → m' ≡ (charge m cost budget).1
      → accepted ≡ []
      → handed ≡ []
      → Step capacity m m' accepted handed
  turned : m' ≡ new_turn m → accepted ≡ [] → handed ≡ [] → Step capacity m m' accepted handed
  touched : m' ≡ wake m → accepted ≡ [] → handed ≡ [] → Step capacity m m' accepted handed
  taken :
      (budget : ℕ) (pick : Envelope → Bool) (size : Envelope → ℕ) (batch : Batch)
      → take m budget pick size ≡ (batch, m')
      → accepted ≡ []
      → handed ≡ batch.taken
      → Step capacity m m' accepted handed
  idled :
      (closing : Bool) (budget : ℕ) (size : Envelope → ℕ) (i : Idle)
      → idle m closing budget size ≡ (i, m')
      → accepted ≡ []
      → handed ≡ delivered i
      → Step capacity m m' accepted handed
  closed : close m ≡ (handed, m') → accepted ≡ [] → Step capacity m m' accepted handed

-- A history of calls on a new mailbox, with all that was accepted and all that was handed over.
pub data Reach (capacity : ℕ) : Mailbox → List Envelope → List Envelope → Type 0 where
  start : Reach capacity empty [] []
  next :
      {m m' : Mailbox} {accepted handed more out : List Envelope}
      → Reach capacity m accepted handed
      → Step capacity m m' more out
      → Reach capacity m' (accepted ++ more) (handed ++ out)

Step-Inv :
    (capacity : ℕ) (m m' : Mailbox) (accepted handed : List Envelope)
    → capacity < u64_mod
    → Inv capacity m
    → Step capacity m m' accepted handed
    → Inv capacity m'
unfolding expect_child saw new_turn wake close
Step-Inv capacity m m' a h w v (reserved e _ _) = rw e (reserve-Inv capacity w m v)
Step-Inv capacity m m' a h w v (pushed x room e _ _) =
    rw (sym (ap (λ (r : Bool × Mailbox). r.1) e)) (push-Inv capacity w m x room v)
Step-Inv capacity m m' a h w v (refused x room e _ _) =
    rw (sym (ap (λ (r : Bool × Mailbox). r.1) e)) (push-Inv capacity w m x room v)
Step-Inv capacity m m' a h w v (expected c e _ _) =
    rw e (record { counted = v.counted; bounded = v.bounded; drained = v.drained })
Step-Inv capacity m m' a h w v (staged c e _ _) = rw e (stage-Inv capacity w m c v)
Step-Inv capacity m m' a h w v (marked c e _ _) =
    rw e (record { counted = v.counted; bounded = v.bounded; drained = v.drained })
Step-Inv capacity m m' a h w v (charged cost budget e _ _) =
    rw e (charge-Inv capacity w m cost budget v)
Step-Inv capacity m m' a h w v (turned e _ _) =
    rw e (record { counted = v.counted; bounded = v.bounded; drained = v.drained })
Step-Inv capacity m m' a h w v (touched e _ _) =
    rw e (record { counted = v.counted; bounded = v.bounded; drained = v.drained })
Step-Inv capacity m m' a h w v (taken budget pick size b e _ _) =
    rw (sym (ap (λ (r : Batch × Mailbox). r.1) e)) (take-Inv capacity w m budget pick size v)
Step-Inv capacity m m' a h w v (idled c budget size i e _ _) =
    rw (sym (ap (λ (r : Idle × Mailbox). r.1) e)) (idle-Inv capacity w m c budget size v)
Step-Inv capacity m m' a h w v (closed e _) =
    rw (sym (ap (λ (r : List Envelope × Mailbox). r.1) e))
      (record { counted = refl; bounded = omega (arith, v.bounded); drained = λ c. refl })

idle-count :
    (p : Envelope → Bool) (m : Mailbox) (closing : Bool) (budget : ℕ) (size : Envelope → ℕ)
    (q : List Envelope)
    → m.queue ≡ q
    → let (i, m') = idle m closing budget size in
      count p m.queue ≡ count p (delivered i) + count p m'.queue
unfolding idle
idle-count p m closing budget size [] e = ground arith
idle-count p m closing budget size (x ∷ q) e =
    ground (arith, take-count p m budget (λ _. true) size)

-- Conservation over one call: nothing is lost and nothing is handed over twice.
Step-count :
    (p : Envelope → Bool) (capacity : ℕ) (m m' : Mailbox) (accepted handed : List Envelope)
    → Inv capacity m
    → Step capacity m m' accepted handed
    → count p m.queue + count p accepted ≡ count p handed + count p m'.queue
unfolding reserve push consume enqueue expect_child stage saw charge new_turn wake close
Step-count p capacity m m' a h v (reserved e x y) = ground (arith, ap (λ (n : Mailbox). n.queue) e)
Step-count p capacity m m' a h v (pushed x room e y z) =
    ground (arith, count-append p m.queue (x ∷ []))
Step-count p capacity m m' a h v (refused x room e y z) = ground arith
Step-count p capacity m m' a h v (expected c e x y) = ground arith
Step-count p capacity m m' a h v (staged c e x y) = ground arith
Step-count p capacity m m' a h v (marked c e x y) = ground arith
Step-count p capacity m m' a h v (charged cost budget e x y) = ground arith
Step-count p capacity m m' a h v (turned e x y) = ground arith
Step-count p capacity m m' a h v (touched e x y) = ground arith
Step-count p capacity m m' a h v (taken budget pick size b e x y) =
    ground (arith, take-count p m budget pick size)
Step-count p capacity m m' a h v (idled c budget size i e x y) =
    ground (arith, idle-count p m c budget size m.queue refl)
Step-count p capacity m m' a h v (closed e x) = ground arith

-- For a capacity that is a word: after any sequence of calls in which every plain message is
-- pushed on a reservation, the counter of plain messages is right, queued and reserved plain
-- messages together stay within the capacity, and a closed mailbox is empty.
pub Reach-bounded :
    (capacity : ℕ) {m : Mailbox} {accepted handed : List Envelope}
    → capacity < u64_mod
    → Reach capacity m accepted handed
    → Inv capacity m
Reach-bounded capacity w start = empty-Inv capacity w
Reach-bounded capacity w (next {m = m} {m' = m'} {more = a} {out = h} r s) =
    Step-Inv capacity m m' a h w (Reach-bounded capacity w r) s

-- For a capacity that is a word: after any sequence of calls in which every plain message is
-- pushed on a reservation, as many of the accepted envelopes pass any test as of those handed
-- over, by a delivery or when the mailbox closed, and of those still queued together. So none is
-- lost or delivered twice.
pub Reach-conserves :
    (capacity : ℕ) {m : Mailbox} {accepted handed : List Envelope} (p : Envelope → Bool)
    → capacity < u64_mod
    → Reach capacity m accepted handed
    → count p accepted ≡ count p handed + count p m.queue
unfolding empty
Reach-conserves capacity p w start = refl
Reach-conserves capacity p w
      (next {m = m} {m' = m'} {accepted = accepted} {handed = handed} {more = a} {out = h} r s) =
    omega (
      arith,
      Reach-conserves capacity p w r,
      Step-count p capacity m m' a h (Reach-bounded capacity w r) s,
      count-append p accepted a,
      count-append p handed h,
    )
