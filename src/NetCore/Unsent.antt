-- ===== src/NetCore/Unsent.antt =====
-- net_core.cpp and tcp_client.cpp: what becomes of the Disconnect of NetCore::DisconnectAsync.
use go_socket_client.Prelude.{ℕ, ◌≡◌, ap, ◌∙◌, Bool, true, false, [], ◌∷◌, ◌++◌, arith}
use go_socket_client.Packet.Error.{ok}
use go_socket_client.Packet.Reader.{Stream}
use go_socket_client.Packet.Gzip.{Gzip}
use go_socket_client.Packet.Message.{Message, disconnect, new_header, disconnect_message_type}
use go_socket_client.Client.{Client, DisconnectCode, is_dis_none, is_connected}
use go_socket_client.Client.Calls.{
  clear_breaker, set_connect_status, break_read_write, break_connect,
}
use go_socket_client.Client.Calls
use go_socket_client.Client.Requests.{send_disconnect, notify}
use go_socket_client.Client.Loop.{
  Turn, leave, prepare, react, turn, finish, stop_pings, settle, start_ping, cancel_ping,
  cancel_ping_late,
}
use go_socket_client.NetCore.{disconnect_async}

-- The message that SendDisconnect puts into the queue.
abbrev pub goodbye : Message
goodbye = disconnect (record { header = new_header disconnect_message_type; disconnect_type = 0 })

module _ {ℓ} {C : Type ℓ} where
  send_disconnect-queue :
      (w : Bool) (c : Client C)
      → is_connected c.status ≡ true
      → ((send_disconnect w c).message_queue ≡ c.message_queue ++ (goodbye ∷ []))
        × ((send_disconnect w c).has_thread ≡ c.has_thread)
  unfolding send_disconnect notify
  send_disconnect-queue w c h = ground (arith, h)

  disconnect_async-queue :
      (w cw : Bool) (code : DisconnectCode) (again : Bool) (c : Client C)
      → c.has_thread ≡ true
      → ((Calls.disconnect_async w cw code again c).message_queue ≡ c.message_queue)
        × ((Calls.disconnect_async w cw code again c).dis_code ≡ code)
  unfolding Calls.disconnect_async break_read_write break_connect
  disconnect_async-queue w cw code again c h = ground (arith, h)

  leaves_first :
      (gzip : Gzip) (t : Turn C) (before c : Client C) (s : Stream)
      → is_dis_none c.dis_code ≡ false
      → react gzip t before c s ≡ ok (leave c s)
  unfolding react
  leaves_first gzip t before c s h = ground (arith, h)

  -- The parts of a turn that come before the select, and those that end the thread, leave the status, the
  -- thread and the queue.
  prepare-queue :
      (start_tick : ℕ) (t : Turn C) (c : Client C)
      → ((prepare start_tick t c).message_queue ≡ c.message_queue)
        × ((prepare start_tick t c).status ≡ c.status)
        × ((prepare start_tick t c).has_thread ≡ c.has_thread)
  unfolding prepare settle start_ping
  prepare-queue start_tick t c = ground arith

  finish-queue :
      (now : ℕ) (c : Client C) → (finish now (stop_pings c)).message_queue ≡ c.message_queue
  unfolding finish stop_pings cancel_ping cancel_ping_late set_connect_status
  finish-queue now c = ground arith

  -- When the user calls NetCore::DisconnectAsync with a code that is not kDisCodeNone, on a connected client
  -- while its thread waits in a select, the turn leaves the loop with nothing written and nothing read: the
  -- Disconnect stands at the end of the queue, behind what was there, and stays there when the thread ends.
  pub turn-disconnect_async :
      (gzip : Gzip) (start_tick now : ℕ) (t : Turn C) (told w cw again : Bool)
      (code : DisconnectCode) (c : Client C) (s : Stream)
      → is_dis_none code ≡ false
      → is_connected c.status ≡ true
      → c.has_thread ≡ true
      → t.others ≡ disconnect_async told w cw code again
      → let d = disconnect_async told w cw code again (prepare start_tick t c) in
        (turn gzip start_tick t c s ≡ ok (leave (clear_breaker d) s))
        × ((finish now (stop_pings (clear_breaker d))).message_queue
            ≡ c.message_queue ++ (goodbye ∷ []))
  unfolding turn disconnect_async clear_breaker
  turn-disconnect_async gzip start_tick now t told w cw again code c s n h k e =
      let p = prepare start_tick t c in
      let q = prepare-queue start_tick t c in
      let b = send_disconnect told p in
      let f = send_disconnect-queue told p (ap is_connected q.1 ∙ h) in
      let g = disconnect_async-queue w cw code again b (f.1 ∙ q.2 ∙ k) in
      let d = Calls.disconnect_async w cw code again b in
      (
        ap (λ o. react gzip t p (clear_breaker (o p)) s) e
            ∙ leaves_first gzip t p (clear_breaker d) s (ap is_dis_none g.1 ∙ n),
        finish-queue now (clear_breaker d) ∙ g.0 ∙ f.0 ∙ ap (λ ms. ms ++ (goodbye ∷ [])) q.0,
      )
