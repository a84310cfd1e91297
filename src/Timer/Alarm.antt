-- ===== src/Timer/Alarm.antt =====
-- common/alarm.cpp: a timer that is one message of the queue. `_callback` is set or not; the message
-- carries it, and when it runs it is `fire`.
use go_socket_client.Prelude.{
  ℕ, ◌≡◌, refl, ◌≢◌, Bool, true, false, not, some, List, [], ◌∷◌, arith, ◌==◌, if◌then◌else◌,
}
use go_socket_client.Timer.Queue.{
  QueueMessage, Queue, insert, remove, has_id, new_message, post_message, cancel_message,
}

-- Alarm::AlarmStatus
pub data AlarmStatus : Type 0 where
  init started canceled alarmed : AlarmStatus

-- The fields of Alarm.
pub record Alarm : Type 0 where
  pub has_callback : Bool
  pub message_id : ℕ
  pub status : AlarmStatus
  pub user_data : ℕ

abbrev pub new_alarm : Alarm
new_alarm = record { has_callback = false; message_id = 0; status = init; user_data = 0 }

-- Alarm::SetCallback
unfoldable pub set_callback : Alarm → Alarm
set_callback a = record a { has_callback = true }

-- Alarm::IsWaiting
unfoldable pub is_waiting : Alarm → Bool
is_waiting a = elim a.status [ started ↦ true | _ ↦ false ]

-- Alarm::IsAlarm
unfoldable pub is_alarm : Alarm → Bool
is_alarm a = elim a.status [ alarmed ↦ true | _ ↦ false ]

-- The lambda that SetCallback stores; the result says whether it runs the inner callback.
unfoldable pub fire : Alarm → Bool × Alarm
fire a = if a.message_id == 0 then (false, a) else (true, record a { status = alarmed })

module _ {ℓ} {C : Type ℓ} where
  -- Alarm::Start, on the shared queue at the time `now`
  unfoldable pub start_alarm : ℕ → ℕ → C → Alarm × Queue C → Bool × Alarm × Queue C
  start_alarm now after_sec callback (a, q) =
      let r = post_message now after_sec (some callback) q in
      if not a.has_callback
      then (false, a, q)
      else (if is_waiting a
          then (false, a, q)
          else (true, record a { message_id = r.0; status = started }, r.1))

  -- Alarm::Cancel
  unfoldable pub cancel_alarm : Alarm × Queue C → Bool × Alarm × Queue C
  cancel_alarm (a, q) =
      let r = cancel_message a.message_id q in
      if a.message_id == 0
      then (false, a, q)
      else (true, record a { message_id = 0; status = canceled }, r.1)

  remove-insert :
      (m : QueueMessage C) (ms : List (QueueMessage C))
      → has_id m.message_id ms ≡ false
      → remove m.message_id (insert m ms) ≡ ms
  unfolding remove insert has_id
  remove-insert m [] h = ground arith
  remove-insert m (x ∷ xs) h = ground (arith, remove-insert m xs)

  -- An alarm that has a callback and does not wait, on a queue whose next id is not 0 and is not in
  -- the list: Start and then Cancel both succeed, the list of messages is what it was, the alarm
  -- waits between the two and not after them, and a callback that comes after the Cancel runs nothing.
  pub start_alarm-cancel_alarm :
      (now after_sec : ℕ) (callback : C) (a : Alarm) (q : Queue C)
      → a.has_callback ≡ true
      → is_waiting a ≡ false
      → q.current_id ≢ 0
      → has_id q.current_id q.first ≡ false
      → let s = start_alarm now after_sec callback (a, q) in
        let c = cancel_alarm (s.1, s.2) in
        (s.0 ≡ true)
        × (is_waiting s.1 ≡ true)
        × (c.0 ≡ true)
        × (c.2.first ≡ q.first)
        × (is_waiting c.1 ≡ false)
        × ((fire c.1).0 ≡ false)
  unfolding start_alarm cancel_alarm fire is_waiting post_message cancel_message
  start_alarm-cancel_alarm now after_sec callback a q h w n d =
      let e : (q.current_id == 0) ≡ false = ground (arith, n) in
      rw (h, w, e)
        (
          refl,
          refl,
          refl,
          remove-insert (new_message now after_sec (some callback) q) q.first d,
          refl,
          refl,
        )
