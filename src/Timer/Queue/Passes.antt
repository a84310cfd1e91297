-- ===== src/Timer/Queue/Passes.antt =====
-- common/message_queue.cpp: the run loop with the calls of other threads between its steps. Each call
-- of PostMessage and CancelMessage holds the mutex, so that it is one step; a pass starts, and looks
-- whether its next callback is cancelled, under the mutex too. Between that look and the call of the
-- callback the mutex is free, so that the call is a step of its own.
use go_socket_client.Prelude.{
  ℕ, suc, ◌≡◌, ◌≢◌, ◌⊎◌, true, false, Option, none, some, List, [], ◌∷◌, ◌==◌, if◌then◌else◌,
}
use go_socket_client.Prelude.StdMap.{find, IsSorted}
use go_socket_client.Timer.Queue.{
  QueueMessage, Queue, post_message, has_id, cancel_message, is_canceled, begin_pass,
}

-- The queue, the callbacks of the pass that are not looked at yet, the one that was found not to be
-- cancelled and is not called yet, and the ids called, newest first.
pub record World {ℓ} (C : Type ℓ) : Type ℓ where
  pub queue : Queue C
  pub pending : List (ℕ × C)
  pub looked : Option ℕ
  pub called : List ℕ

pub data Event {ℓ} (C : Type ℓ) : Type ℓ where
  post : ℕ → ℕ → Option C → Event C
  cancel : ℕ → Event C
  start_pass : ℕ → Event C
  look_next : Event C
  call_looked : Event C

-- How often the callbacks with an id have run.
abbrev pub calls : ℕ → List ℕ → ℕ
calls i [] = 0
calls i (j ∷ js) = if j == i then suc (calls i js) else calls i js

-- A callback with the id stands between the look and its call.
abbrev pub about_to : ℕ → Option ℕ → ℕ
about_to i none = 0
about_to i (some j) = if j == i then 1 else 0

module _ {ℓ} {C : Type ℓ} where
  -- The body of the loop over `callbackMap`, up to the second unlock
  unfoldable pub look : Option ℕ → List (ℕ × C) → World C → World C
  look (some j) ps w = w
  look none [] w = w
  look none ((i, c) ∷ rest) w =
      if is_canceled i w.queue
      then record w { pending = rest }
      else record w { pending = rest; looked = some i }

  -- `kv.second()`
  unfoldable pub call : Option ℕ → World C → World C
  call none w = w
  call (some i) w = record w { looked = none; called = i ∷ w.called }

  -- A pass starts when the one before has no callback left.
  unfoldable pub start : ℕ → Option ℕ → List (ℕ × C) → World C → World C
  start now none [] w = record w {
    queue = (begin_pass now w.queue).1;
    pending = (begin_pass now w.queue).0.callbacks;
  }
  start now none (p ∷ ps) w = w
  start now (some j) ps w = w

  unfoldable pub step : Event C → World C → World C
  step (post now after_sec callback) w = record w {
    queue = (post_message now after_sec callback w.queue).1;
  }
  step (cancel i) w = record w { queue = (cancel_message i w.queue).1 }
  step (start_pass now) w = start now w.looked w.pending w
  step look_next w = look w.looked w.pending w
  step call_looked w = call w.looked w

  unfoldable pub run : List (Event C) → World C → World C
  run [] w = w
  run (e ∷ es) w = run es (step e w)

  -- No PostMessage of the events hands the id out.
  abbrev pub Unposted : ℕ → List (Event C) → World C → Type 0
  Unposted i [] w = Unit
  Unposted i (post now after_sec callback ∷ es) w =
      (w.queue.current_id ≢ i) × Unposted i es (step (post now after_sec callback) w)
  Unposted i (cancel j ∷ es) w = Unposted i es (step (cancel j) w)
  Unposted i (start_pass now ∷ es) w = Unposted i es (step (start_pass now) w)
  Unposted i (look_next ∷ es) w = Unposted i es (step look_next w)
  Unposted i (call_looked ∷ es) w = Unposted i es (step call_looked w)

  -- At most one message of the list has the id.
  abbrev pub Once : ℕ → List (QueueMessage C) → Type 0
  Once i [] = Unit
  Once i (m ∷ ms) = if m.message_id == i then (has_id i ms ≡ false) else Once i ms

  -- The callback with the id is not found again: it is not in the queue, and if the pass still has it, then
  -- the id is noted as cancelled.
  unfoldable pub IsDead : ℕ → World C → Type ℓ
  IsDead i w =
      (has_id i w.queue.first ≡ false)
      × ((find i w.pending ≡ none) ⊎ (is_canceled i w.queue ≡ true))
      × IsSorted w.pending
