-- ===== src/Client/Machine/Keeps.antt =====
-- tcp_client.cpp: what leaves the callbacks and the calls of callbacks alone.
use go_socket_client.Prelude.{ℕ, ◌≡◌, refl, ◌∙◌, Bool, List, [], ◌∷◌, arith}
use go_socket_client.Packet.Message.{
  Message, connect, conn_ack, ping_req, ping_resp, disconnect, send_req, send_resp,
}
use go_socket_client.Client.{Client, DisconnectCode}
use go_socket_client.Client.Calls.{
  clear_breaker, clear_connect_breaker, make_sure_connected, break_read_write, break_connect,
  disconnect_async, stop_timeout, drop_timeout, renew_breakers, stop_all,
}
use go_socket_client.Client.Requests.{notify, send_no_reply, send_disconnect}
use go_socket_client.Client.Connecting.{refresh_count}
use go_socket_client.Client.Loop.{
  settle, start_ping, cancel_ping, start_ping_late, cancel_ping_late, start_timeout, note_request,
  written,
}
use go_socket_client.Client.Machine.{write_one, step, ping_fires, ping_late_fires}
use go_socket_client.Client.Wakeup.Parts.{fire_ping, fire_ping_late}

module _ {ℓ} {C : Type ℓ} where
  -- The same callbacks wait, the same calls were made, and the same id comes next.
  pub record SameBook (c d : Client C) : Type ℓ where
    pub map_same : d.callback_map ≡ c.callback_map
    pub effects_same : d.effects ≡ c.effects
    pub id_same : d.current_msg_id ≡ c.current_msg_id

  pub SameBook-refl : (c : Client C) → SameBook c c
  SameBook-refl c = record { map_same = refl; effects_same = refl; id_same = refl }

  pub SameBook-trans : (c d e : Client C) → SameBook c d → SameBook d e → SameBook c e
  SameBook-trans c d e h k = record {
    map_same = k.map_same ∙ h.map_same;
    effects_same = k.effects_same ∙ h.effects_same;
    id_same = k.id_same ∙ h.id_same;
  }

  pub clear_breaker-SameBook : (c : Client C) → SameBook c (clear_breaker c)
  unfolding clear_breaker
  clear_breaker-SameBook c = ground arith

  pub clear_connect_breaker-SameBook : (c : Client C) → SameBook c (clear_connect_breaker c)
  unfolding clear_connect_breaker
  clear_connect_breaker-SameBook c = ground arith

  pub ping_fires-SameBook : (w : Bool) (c : Client C) → SameBook c (step (ping_fires w) c)
  unfolding step notify fire_ping
  ping_fires-SameBook w c = ground arith

  pub ping_late_fires-SameBook : (w : Bool) (c : Client C) → SameBook c (step (ping_late_fires w) c)
  unfolding step notify fire_ping_late
  ping_late_fires-SameBook w c = ground arith

  pub make_sure_connected-SameBook : (c : Client C) → SameBook c (make_sure_connected c)
  unfolding make_sure_connected
  make_sure_connected-SameBook c = ground arith

  break_read_write-SameBook : (w : Bool) (c : Client C) → SameBook c (break_read_write w c)
  unfolding break_read_write
  break_read_write-SameBook w c = ground arith

  break_connect-SameBook : (w : Bool) (c : Client C) → SameBook c (break_connect w c)
  unfolding break_connect
  break_connect-SameBook w c = ground arith

  pub disconnect_async-SameBook :
      (w cw : Bool) (code : DisconnectCode) (again : Bool) (c : Client C)
      → SameBook c (disconnect_async w cw code again c)
  unfolding disconnect_async
  disconnect_async-SameBook w cw code again c =
      let d = record c { dis_code = code; should_reconnect = again } in
      ground (
        arith,
        make_sure_connected-SameBook c,
        break_read_write-SameBook w d,
        break_connect-SameBook cw (break_read_write w d),
      )

  pub stop_timeout-SameBook : (i : ℕ) (c : Client C) → SameBook c (stop_timeout i c)
  unfolding stop_timeout
  stop_timeout-SameBook i c = ground arith

  pub drop_timeout-SameBook : (i : ℕ) (c : Client C) → SameBook c (drop_timeout i c)
  unfolding drop_timeout
  drop_timeout-SameBook i c = ground arith

  pub renew_breakers-SameBook :
      (made conn_made : Bool) (c : Client C) → SameBook c (renew_breakers made conn_made c)
  unfolding renew_breakers
  renew_breakers-SameBook made conn_made c = ground arith

  pub stop_all-SameBook : (c : Client C) → SameBook c (stop_all c)
  unfolding stop_all
  stop_all-SameBook c = ground arith

  pub send_no_reply-SameBook :
      (w : Bool) (kind payload : List ℕ) (c : Client C)
      → SameBook c (send_no_reply w kind payload c).1
  unfolding send_no_reply notify
  send_no_reply-SameBook w kind payload c = ground arith

  pub send_disconnect-SameBook : (w : Bool) (c : Client C) → SameBook c (send_disconnect w c)
  unfolding send_disconnect notify
  send_disconnect-SameBook w c = ground arith

  pub refresh_count-SameBook : (tick : ℕ) (c : Client C) → SameBook c (refresh_count tick c)
  unfolding refresh_count
  refresh_count-SameBook tick c = ground arith

  pub settle-SameBook : (start_tick tick : ℕ) (c : Client C) → SameBook c (settle start_tick tick c)
  unfolding settle
  settle-SameBook start_tick tick c = ground arith

  pub start_ping-SameBook : (now : ℕ) (c : Client C) → SameBook c (start_ping now c)
  unfolding start_ping
  start_ping-SameBook now c = ground arith

  pub cancel_ping-SameBook : (c : Client C) → SameBook c (cancel_ping c)
  unfolding cancel_ping
  cancel_ping-SameBook c = ground arith

  pub start_ping_late-SameBook : (now : ℕ) (c : Client C) → SameBook c (start_ping_late now c)
  unfolding start_ping_late
  start_ping_late-SameBook now c = ground arith

  pub cancel_ping_late-SameBook : (c : Client C) → SameBook c (cancel_ping_late c)
  unfolding cancel_ping_late
  cancel_ping_late-SameBook c = ground arith

  start_timeout-SameBook : (now i : ℕ) (c : Client C) → SameBook c (start_timeout now i c)
  unfolding start_timeout
  start_timeout-SameBook now i c = ground arith

  note_request-SameBook : (now : ℕ) (m : Message) (c : Client C) → SameBook c (note_request now m c)
  unfolding note_request
  note_request-SameBook now (send_req m) c = start_timeout-SameBook now m.message_id c
  note_request-SameBook now (connect m) c = SameBook-refl c
  note_request-SameBook now (conn_ack m) c = SameBook-refl c
  note_request-SameBook now (ping_req m) c = SameBook-refl c
  note_request-SameBook now (ping_resp m) c = SameBook-refl c
  note_request-SameBook now (disconnect m) c = SameBook-refl c
  note_request-SameBook now (send_resp m) c = SameBook-refl c

  written-SameBook :
      (now : ℕ) (m : Message) (rest : List Message) (c : Client C)
      → SameBook c (written now m rest c)
  unfolding written
  written-SameBook now m rest c =
      let d = record (note_request now m c) { message_queue = rest } in
      ground (
        arith,
        note_request-SameBook now m c,
        cancel_ping-SameBook d,
        start_ping-SameBook now (cancel_ping d),
      )

  pub write_one-SameBook :
      (now : ℕ) (ms : List Message) (c : Client C) → SameBook c (write_one now ms c)
  unfolding write_one
  write_one-SameBook now [] c = SameBook-refl c
  write_one-SameBook now (m ∷ rest) c = written-SameBook now m rest c
