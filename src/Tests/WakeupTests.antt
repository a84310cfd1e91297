-- ===== src/Tests/WakeupTests.antt =====
-- The theorem on wake-ups at a concrete run: the thread is in its select, and a Send comes.
use go_socket_client.Prelude.{ℕ, ◌≡◌, refl, true, false, some, none, [], ◌∷◌, ◌++◌, ◌≤◌, List}
use go_socket_client.Socket.Breaker.{clear, break}
use go_socket_client.Timer.Alarm.{is_waiting, is_alarm, start_alarm}
use go_socket_client.Client.{
  Client, new_client, connected, logout, is_connected, status_number, is_dis_none,
}
use go_socket_client.Client.Calls.{break_read_write, make_sure_connected, set_connect_status}
use go_socket_client.Client.Requests.{notify}
use go_socket_client.Client.Loop.{prepare, settle, start_ping}
use go_socket_client.Client.Wakeup.Turns.{all_turns}
use go_socket_client.Client.Wakeup.Quiet.{has_code}
use go_socket_client.Client.Wakeup.Quits.{Reach-leaves}
use go_socket_client.Packet.Message.{Message}
use go_socket_client.Client.Wakeup.{
  left, breaking_read_write, breaking_connect, clear_breaker, disconnects, breaks_read_write, wakes,
  clears, errs, Moment, selecting, nobody, here, later, Reach, enqueue, connects, prepares, looks,
  sends, tells,
}
use go_socket_client.Client.Wakeup.NoLoss.{CanStart, Reach-IsHeard}
use go_socket_client.Tests.ClientTests.{all_listeners, quiet_turn}

abbrev idle_client : Client ℕ
idle_client = new_client (1 ∷ []) (2 ∷ []) all_listeners

idle_client-CanStart : CanStart idle_client
unfolding is_connected is_alarm
idle_client-CanStart = record {
  not_connected = refl;
  no_thread = refl;
  working = record { in_step = refl; usable = refl };
  callback = refl;
  no_ping = refl;
  no_late = refl;
}

abbrev looped : Client ℕ
looped = prepare 0 quiet_turn (set_connect_status connected (make_sure_connected idle_client))

-- In the select, which does not watch for writing, with a message that has just come.
abbrev sent : Moment ℕ
sent = record {
  client = notify true (enqueue (7 ∷ []) (8 ∷ []) none (some 30) looped);
  place = selecting false;
  holder = nobody;
  firing = false;
}

Reach-IsHeard_example : sent.client.read_write_breaker.held ≡ 1
unfolding prepare settle start_ping set_connect_status make_sure_connected is_connected
    status_number start_alarm is_waiting clear enqueue notify break is_dis_none is_alarm
Reach-IsHeard_example =
    Reach-IsHeard idle_client sent false idle_client-CanStart
      (later
        (later
          (later (later (later here (connects refl)) (prepares 0 quiet_turn refl))
            (looks refl refl))
          (sends (7 ∷ []) (8 ∷ []) none (some 30) refl refl))
        (tells refl))
      refl refl refl refl

-- In the select with the message and a code, after the first part of DisconnectAsync
abbrev told_to_leave : Moment ℕ
told_to_leave = record sent {
  client = record sent.client { dis_code = logout; should_reconnect = false };
  holder = breaking_read_write;
}

-- The poll answers, and the thread clears the breaker between the two breaks of DisconnectAsync.
abbrev gone : Moment ℕ
gone = record {
  client = clear_breaker (break_read_write true told_to_leave.client);
  place = left;
  holder = breaking_connect;
  firing = false;
}

abbrev leaving : Reach told_to_leave gone
leaving =
    later
      (later (later (later here (breaks_read_write refl)) (wakes false refl)) (clears false refl))
      (errs false refl)

Reach-leaves_example :
    (all_turns leaving ≤ 3)
    × (all_turns leaving ≡ 3 → gone.place ≡ left)
    × (has_code gone.client ≡ true)
    × ((added : List Message) × (gone.client.message_queue
          ≡ told_to_leave.client.message_queue ++ added))
unfolding prepare settle start_ping set_connect_status make_sure_connected is_connected
    status_number start_alarm is_waiting clear enqueue notify break is_dis_none is_alarm
Reach-leaves_example =
    Reach-leaves idle_client told_to_leave gone false idle_client-CanStart
      (later
        (later
          (later
            (later (later (later here (connects refl)) (prepares 0 quiet_turn refl))
              (looks refl refl))
            (sends (7 ∷ []) (8 ∷ []) none (some 30) refl refl))
          (tells refl))
        (disconnects logout false refl refl))
      refl refl leaving ((((tt, tt), tt), tt), tt)
