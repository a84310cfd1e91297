-- ===== src/Client/Machine/Account/Run.antt =====
-- tcp_client.cpp: the account of the callbacks through any run of events.
use go_socket_client.Prelude.{ℕ, ◌+◌, ◌≡◌, refl, Bool, List, [], ◌∷◌, arith}
use go_socket_client.Client.{Client}
use go_socket_client.Client.Loop.{cancel_ping, cancel_ping_late}
use go_socket_client.Client.Machine.{
  Event, ping_fires, ping_late_fires, connect_select_clears, select_clears, connect_call,
  disconnect_call, send_call, send_no_reply_call, send_disconnect_call, wait_call, reconnect_fires,
  timeout_fires, status_changes, count_refreshed, reconnect_refused, socket_opened, count_settled,
  ping_started, ping_late, message_written, response_came, request_came, disconnect_came,
  ping_resp_came, ping_sent, pings_stopped, thread_ends, step, run,
}
use go_socket_client.Client.Machine.Keeps.{
  SameBook, SameBook-trans, make_sure_connected-SameBook, disconnect_async-SameBook,
  send_no_reply-SameBook, send_disconnect-SameBook, refresh_count-SameBook, settle-SameBook,
  start_ping-SameBook, cancel_ping-SameBook, start_ping_late-SameBook, cancel_ping_late-SameBook,
  write_one-SameBook, clear_breaker-SameBook, clear_connect_breaker-SameBook, ping_fires-SameBook,
  ping_late_fires-SameBook,
}
use go_socket_client.Client.Machine.Account.{IsFree, AllFree, weight, account, SameBook-account}
use go_socket_client.Client.Machine.Account.Steps.{
  wait_disconnect-account, on_send_late-account, handle_send_resp-account, handle_send_req-account,
  handle_disconnect-account, set_connect_status-account, on_reconnect-account, finish-account,
  send-account,
}

module _ {ℓ} {C : Type ℓ} (p : C → Bool) where
  -- What an event gives to Send.
  abbrev pub gift : Event C → ℕ
  gift (send_call w kind payload content func) = weight p func
  gift e = 0

  abbrev pub given : List (Event C) → ℕ
  given [] = 0
  given (e ∷ es) = gift e + given es

  same : (c d : Client C) → SameBook c d → account p d ≡ 0 + account p c
  same c d h = omega (arith, SameBook-account p c d h)

  step-account :
      (e : Event C) (c : Client C) → IsFree e c → account p (step e c) ≡ gift e + account p c
  unfolding step
  step-account connect_call c h = same c _ (make_sure_connected-SameBook c)
  step-account (disconnect_call w cw code again) c h =
      same c _ (disconnect_async-SameBook w cw code again c)
  step-account (send_call w kind payload content func) c h =
      send-account p w kind payload content func c h
  step-account (send_no_reply_call w kind payload) c h =
      same c _ (send_no_reply-SameBook w kind payload c)
  step-account (send_disconnect_call w) c h = same c _ (send_disconnect-SameBook w c)
  step-account (wait_call made conn_made) c h =
      omega (arith, wait_disconnect-account p made conn_made c)
  step-account (reconnect_fires made conn_made) c h =
      omega (arith, on_reconnect-account p made conn_made c)
  step-account (ping_fires w) c h = same c _ (ping_fires-SameBook w c)
  step-account (ping_late_fires w) c h = same c _ (ping_late_fires-SameBook w c)
  step-account (timeout_fires w cw i) c h = omega (arith, on_send_late-account p w cw i c)
  step-account (status_changes s) c h = omega (arith, set_connect_status-account p s c)
  step-account (count_refreshed tick) c h = same c _ (refresh_count-SameBook tick c)
  step-account reconnect_refused c h =
      same c _ (record { map_same = refl; effects_same = refl; id_same = refl })
  step-account socket_opened c h =
      same c _ (record { map_same = refl; effects_same = refl; id_same = refl })
  step-account connect_select_clears c h = same c _ (clear_connect_breaker-SameBook c)
  step-account (count_settled start_tick tick) c h = same c _ (settle-SameBook start_tick tick c)
  step-account (ping_started now) c h = same c _ (start_ping-SameBook now c)
  step-account select_clears c h = same c _ (clear_breaker-SameBook c)
  step-account ping_late c h =
      same c _ (record { map_same = refl; effects_same = refl; id_same = refl })
  step-account (message_written now) c h = same c _ (write_one-SameBook now c.message_queue c)
  step-account (response_came m) c h = omega (arith, handle_send_resp-account p m c)
  step-account (request_came m) c h = omega (arith, handle_send_req-account p m c)
  step-account (disconnect_came w cw m) c h = omega (arith, handle_disconnect-account p w cw m c)
  step-account ping_resp_came c h = same c _ (cancel_ping_late-SameBook c)
  step-account (ping_sent now) c h = same c _ (
      SameBook-trans c (cancel_ping_late c) _ (cancel_ping_late-SameBook c)
        (start_ping_late-SameBook now (cancel_ping_late c)))
  step-account pings_stopped c h = same c _ (
      SameBook-trans c (cancel_ping c) _ (cancel_ping-SameBook c)
        (cancel_ping_late-SameBook (cancel_ping c)))
  step-account (thread_ends now) c h = omega (arith, finish-account p now c)

  -- Through any run of events, in which a Send that is accepted finds its id free of a waiting
  -- callback, no callback is lost and none is called twice: however callbacks are marked, the calls of
  -- marked ones together with the marked ones that wait in the map grow by exactly those that the
  -- run's Sends were given, whether they were accepted or refused.
  pub run-account :
      (es : List (Event C)) (c : Client C)
      → AllFree es c
      → account p (run es c) ≡ given es + account p c
  unfolding run
  run-account [] c h = omega arith
  run-account (e ∷ es) c h = omega (arith, step-account e c h.0, run-account es (step e c) h.1)
