-- ===== src/Timer/Queue.antt =====
-- common/message_queue.cpp and .hpp: the queue of delayed callbacks. A time is a number of
-- nanoseconds, which is what system_clock counts. A callback is a value of any type `C`; `none` is
-- the null function. The clock's reading is an argument.
pub mod Schedule
pub mod Passes
pub mod Cancelled
use go_socket_client.Prelude.{
  [], ℕ, ◌+◌, ◌-◌, ◌*◌, ◌/◌, ◌%◌, ◌^◌, Bool, true, false, Option, none, some, List, ◌∷◌, ltb, ◌==◌,
  if◌then◌else◌,
}
use go_socket_client.Prelude.StdMap.{put, find}

-- Message
pub record QueueMessage {ℓ} (C : Type ℓ) : Type ℓ where
  pub callback : Option C
  pub message_id : ℕ
  pub when : ℕ

-- The fields of MessageQueue. The linked list from `_firstMessage` is a list.
pub record Queue {ℓ} (C : Type ℓ) : Type ℓ where
  pub first : List (QueueMessage C)
  pub current_id : ℕ
  pub has_post : Bool
  pub canceled : List (ℕ × Bool)

abbrev pub uint32_max : ℕ
uint32_max = 4294967295

abbrev pub ns_per_ms : ℕ
ns_per_ms = 1000000

abbrev pub ns_per_s : ℕ
ns_per_s = 1000000000

-- `_currentMsgId++`, which starts again at 1 when it reaches UINT32_MAX.
unfoldable pub next_id : ℕ → ℕ
next_id i = let n = (i + 1) % 2 ^ 32 in if n == uint32_max then 1 else n

module _ {ℓ} {C : Type ℓ} where
  abbrev pub new_queue : Queue C
  new_queue = record { first = []; current_id = 1; has_post = false; canceled = [] }

  -- The new message goes before the first one that is not earlier.
  unfoldable pub insert : QueueMessage C → List (QueueMessage C) → List (QueueMessage C)
  insert m [] = m ∷ []
  insert m (x ∷ xs) =
      let rest = insert m xs in if ltb x.when m.when then (x ∷ rest) else (m ∷ x ∷ xs)

  abbrev pub new_message : ℕ → ℕ → Option C → Queue C → QueueMessage C
  new_message now after_sec callback q = record {
    callback = callback;
    message_id = q.current_id;
    when = now + after_sec * ns_per_s;
  }

  -- MessageQueue::PostMessage
  unfoldable pub post_message : ℕ → ℕ → Option C → Queue C → ℕ × Queue C
  post_message now after_sec callback q = (
    q.current_id,
    record q {
      current_id = next_id q.current_id;
      first = insert (new_message now after_sec callback q) q.first;
      has_post = true;
    },
  )

  unfoldable pub has_id : ℕ → List (QueueMessage C) → Bool
  has_id i [] = false
  has_id i (m ∷ ms) = let rest = has_id i ms in if m.message_id == i then true else rest

  -- The first message with the id leaves the list.
  unfoldable pub remove : ℕ → List (QueueMessage C) → List (QueueMessage C)
  remove i [] = []
  remove i (m ∷ ms) = let rest = remove i ms in if m.message_id == i then ms else (m ∷ rest)

  -- MessageQueue::CancelMessage. The id is noted whether or not it is in the list.
  unfoldable pub cancel_message : ℕ → Queue C → Bool × Queue C
  cancel_message i q =
      (has_id i q.first, record q { canceled = put i true q.canceled; first = remove i q.first })

  -- `DURATION_TO_MS(now-when).count() >= 0`: duration_cast rounds to zero, so that a message less than
  -- a millisecond ahead is due; a difference that is not negative is 0 here.
  unfoldable pub is_due : ℕ → QueueMessage C → Bool
  is_due now m = (m.when - now) / ns_per_ms == 0

  -- `callbackMap[currentMessage->_messageId] = currentMessage->_callback`
  unfoldable pub note : List (ℕ × C) → QueueMessage C → List (ℕ × C)
  note callbacks m = elim m.callback [ none ↦ callbacks | some c ↦ put m.message_id c callbacks ]

  -- The first loop of a pass: it takes the due messages off the front.
  unfoldable pub collect :
      ℕ → List (ℕ × C) → List (QueueMessage C) → List (ℕ × C) × List (QueueMessage C)
  collect now callbacks [] = (callbacks, [])
  collect now callbacks (m ∷ ms) =
      let rest = collect now (note callbacks m) ms in
      if is_due now m then rest else (callbacks, m ∷ ms)

  -- The time to the first message that stays, in milliseconds, or 0 without one.
  unfoldable pub duration_to : ℕ → List (QueueMessage C) → ℕ
  duration_to now [] = 0
  duration_to now (m ∷ ms) = (m.when - now) / ns_per_ms

-- What the run loop keeps while it runs the callbacks of a pass.
pub record Pass {ℓ} (C : Type ℓ) : Type ℓ where
  pub callbacks : List (ℕ × C)
  pub now : ℕ
  pub duration : ℕ

-- How a pass ends: the loop starts again, waits for a notification, or waits until a time.
pub data Waiting : Type 0 where
  again wait : Waiting
  wait_until : ℕ → Waiting

module _ {ℓ} {C : Type ℓ} where
  -- MessageQueue::__RunLoop up to the first `unlock`
  unfoldable pub begin_pass : ℕ → Queue C → Pass C × Queue C
  begin_pass now q =
      let r = collect now [] q.first in
      (
        record { callbacks = r.0; now = now; duration = duration_to now r.1 },
        record q { first = r.1; canceled = []; has_post = false },
      )

  -- `_canceledMessageIds.find(kv.first) != _canceledMessageIds.end()`
  unfoldable pub is_canceled : ℕ → Queue C → Bool
  is_canceled i q = elim (find i q.canceled) [ none ↦ false | some b ↦ true ]

  -- The end of a pass, after the last callback.
  unfoldable pub end_pass : Pass C → Queue C → Waiting × Queue C
  end_pass p q =
      if q.has_post
      then (again, record q { has_post = false })
      else ((if p.duration == 0 then wait else wait_until (p.now + p.duration * ns_per_ms)), q)
