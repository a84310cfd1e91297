-- ===== src/Client/Wakeup/Quiet.antt =====
-- tcp_client.cpp: which steps leave the breaker alone and give the client's thread nothing new to do.
use go_socket_client.Prelude.{
  ℕ, ◌≡◌, refl, ap, ◌∙◌, Bool, true, false, not, if◌then◌else◌, arith, leb, length,
}
use go_socket_client.Timer.Alarm.{is_alarm, is_waiting, start_alarm, cancel_alarm}
use go_socket_client.Client.{Client, ConnectStatus, is_dis_none}
use go_socket_client.Client.Calls.{set_connect_status}
use go_socket_client.Client.Connecting.{refresh_count}
use go_socket_client.Client.Loop.{
  Turn, settle, start_ping, cancel_ping, start_ping_late, cancel_ping_late, prepare, start_timeout,
}

module _ {ℓ} {C : Type ℓ} where
  -- What the thread has to do: leave for a code, leave for a late ping, ping, and write.
  abbrev pub has_code : Client C → Bool
  has_code c = not (is_dis_none c.dis_code)

  abbrev pub has_late : Client C → Bool
  has_late c = is_alarm c.ping_timeout_alarm

  abbrev pub has_ping : Client C → Bool
  has_ping c = is_alarm c.ping_alarm

  abbrev pub has_message : Client C → Bool
  has_message c = leb 1 (length c.message_queue)

  -- `d` has the breaker of `c` and no more to do.
  pub record IsQuieter (c d : Client C) : Type ℓ where
    pub thread_same : d.has_thread ≡ c.has_thread
    pub breaker_same : d.read_write_breaker ≡ c.read_write_breaker
    pub callback_same : d.ping_alarm.has_callback ≡ c.ping_alarm.has_callback
    pub code_less : has_code d ≡ true → has_code c ≡ true
    pub late_less : has_late d ≡ true → has_late c ≡ true
    pub ping_less : has_ping d ≡ true → has_ping c ≡ true
    pub message_less : has_message d ≡ true → has_message c ≡ true

  pub IsQuieter-refl : (c : Client C) → IsQuieter c c
  IsQuieter-refl c = record {
    thread_same = refl;
    breaker_same = refl;
    callback_same = refl;
    code_less = λ h. h;
    late_less = λ h. h;
    ping_less = λ h. h;
    message_less = λ h. h;
  }

  pub IsQuieter-trans : (c d e : Client C) → IsQuieter c d → IsQuieter d e → IsQuieter c e
  IsQuieter-trans c d e h k = record {
    thread_same = ground (arith, h.thread_same, k.thread_same);
    breaker_same = ground (arith, h.breaker_same, k.breaker_same);
    callback_same = ground (arith, h.callback_same, k.callback_same);
    code_less = λ x. h.code_less (k.code_less x);
    late_less = λ x. h.late_less (k.late_less x);
    ping_less = λ x. h.ping_less (k.ping_less x);
    message_less = λ x. h.message_less (k.message_less x);
  }

  pub settle-IsQuieter : (start tick : ℕ) (c : Client C) → IsQuieter c (settle start tick c)
  unfolding settle
  settle-IsQuieter start tick c = ground arith

  pub refresh_count-IsQuieter : (tick : ℕ) (c : Client C) → IsQuieter c (refresh_count tick c)
  unfolding refresh_count
  refresh_count-IsQuieter tick c = ground arith

  pub set_connect_status-IsQuieter :
      (s : ConnectStatus) (c : Client C) → IsQuieter c (set_connect_status s c)
  unfolding set_connect_status
  set_connect_status-IsQuieter s c = ground arith

  pub start_ping-IsQuieter : (now : ℕ) (c : Client C) → IsQuieter c (start_ping now c)
  unfolding start_ping start_alarm is_alarm is_waiting
  start_ping-IsQuieter now c = ground arith

  pub cancel_ping-IsQuieter : (c : Client C) → IsQuieter c (cancel_ping c)
  unfolding cancel_ping cancel_alarm is_alarm
  cancel_ping-IsQuieter c = ground arith

  pub start_ping_late-IsQuieter : (now : ℕ) (c : Client C) → IsQuieter c (start_ping_late now c)
  unfolding start_ping_late start_alarm is_alarm is_waiting
  start_ping_late-IsQuieter now c = ground arith

  pub cancel_ping_late-IsQuieter : (c : Client C) → IsQuieter c (cancel_ping_late c)
  unfolding cancel_ping_late cancel_alarm is_alarm
  cancel_ping_late-IsQuieter c = ground arith

  pub prepare-IsQuieter : (start : ℕ) (t : Turn C) (c : Client C) → IsQuieter c (prepare start t c)
  unfolding prepare
  prepare-IsQuieter start t c =
      let d = settle start t.tick c in
      let h = settle-IsQuieter start t.tick c in
      ground (arith, h, IsQuieter-trans c d (start_ping t.now d) h (start_ping-IsQuieter t.now d))

  settle-callback :
      (start tick : ℕ) (c : Client C) → (settle start tick c).ping_alarm ≡ c.ping_alarm
  unfolding settle
  settle-callback start tick c = ground arith

  start_ping-quiet :
      (now : ℕ) (c : Client C)
      → c.ping_alarm.has_callback ≡ true
      → (if is_waiting c.ping_alarm then has_ping c else has_ping (start_ping now c)) ≡ false
  unfolding start_ping start_alarm is_alarm is_waiting
  start_ping-quiet now c h = ground (arith, h)

  -- The head of the loop starts the ping alarm again, also where it has fired in the meantime.
  pub prepare-quiet :
      (start : ℕ) (t : Turn C) (c : Client C)
      → c.ping_alarm.has_callback ≡ true
      → has_ping (prepare start t c) ≡ false
  unfolding prepare
  prepare-quiet start t c h =
      let d = settle start t.tick c in
      let k =
        start_ping-quiet t.now d (ap (λ a. a.has_callback) (settle-callback start t.tick c) ∙ h) in
      ground (arith, k)

  pub start_timeout-IsQuieter : (now i : ℕ) (c : Client C) → IsQuieter c (start_timeout now i c)
  unfolding start_timeout
  start_timeout-IsQuieter now i c = ground arith
