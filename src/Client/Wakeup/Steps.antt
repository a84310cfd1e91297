-- ===== src/Client/Wakeup/Steps.antt =====
-- tcp_client.cpp: every step keeps what is owed to the client's thread.
use go_socket_client.Prelude.{
  ℕ, ◌≡◌, refl, sym, subst, ◌∙◌, Bool, true, false, ◌==◌, arith, if◌then◌else◌,
}
use go_socket_client.Packet.Message.{
  Message, Disconnect, connect, conn_ack, ping_req, ping_resp, disconnect, send_req, send_resp,
}
use go_socket_client.Client.{
  server_disconnect, emit, Client, emit, server_disconnect, kickout, DisconnectCode,
}
use go_socket_client.Client.Calls.{
  break_read_write, break_connect, disconnect_async, handle_disconnect,
}
use go_socket_client.Client.Requests.{notify}
use go_socket_client.Client.Loop.{Turn, dispatch}
use go_socket_client.Client.Wakeup.{reading, pinging, Moment, at}
use go_socket_client.Client.Wakeup.Quiet.{IsQuieter, cancel_ping_late-IsQuieter, IsQuieter-refl}
use go_socket_client.Client.Wakeup.Calm.{handle_send_req-IsQuieter, handle_send_resp-IsQuieter}
use go_socket_client.Client.Wakeup.Awake.{
  IsWorking, break-IsWorking, is_told, IsAwake, advance, hold, told-IsAwake,
}

if_true {ℓ} : {A : Type ℓ} (b : Bool) (x y : A) → b ≡ true → (if b then x else y) ≡ x
if_true b x y h = rw h refl

if_both {ℓ κ} :
    {A : Type ℓ} (P : A → Type κ) (b : Bool) (x y : A) → P x → P y → P (if b then x else y)
if_both P true x y h k = h
if_both P false x y h k = k

module _ {ℓ} {C : Type ℓ} where
  -- Breaks of a breaker that works
  pub notify-told :
      (c : Client C)
      → IsWorking c.read_write_breaker
      → ((notify true c).has_thread ≡ c.has_thread)
        × ((notify true c).ping_alarm.has_callback ≡ c.ping_alarm.has_callback)
        × IsWorking (notify true c).read_write_breaker
        × (is_told (notify true c) ≡ true)
  unfolding notify
  notify-told c w = let h = break-IsWorking c.read_write_breaker w in (refl, refl, h.0, h.1)

  pub break_read_write-told :
      (c : Client C)
      → IsWorking c.read_write_breaker
      → ((break_read_write true c).has_thread ≡ c.has_thread)
        × ((break_read_write true c).ping_alarm.has_callback ≡ c.ping_alarm.has_callback)
        × IsWorking (break_read_write true c).read_write_breaker
        × (is_told (break_read_write true c) ≡ true)
  unfolding break_read_write
  break_read_write-told c w =
      let h = break-IsWorking c.read_write_breaker w in rw h.2 (refl, refl, h.0, h.1)

  pub break_connect-IsQuieter : (takes : Bool) (c : Client C) → IsQuieter c (break_connect takes c)
  unfolding break_connect
  break_connect-IsQuieter takes c = ground arith

  disconnect_async-runs :
      (takes : Bool) (code : DisconnectCode) (again : Bool) (c : Client C)
      → c.has_thread ≡ true
      → disconnect_async true takes code again c
        ≡ break_connect takes
            (break_read_write true (record c { dis_code = code; should_reconnect = again }))
  unfolding disconnect_async
  disconnect_async-runs takes code again c h = if_true c.has_thread _ _ h

  -- A kickout is a DisconnectAsync of the thread itself.
  kickout-IsAwake :
      (takes : Bool) (m : Moment C)
      → IsAwake m
      → IsAwake (at pinging (disconnect_async true takes kickout false m.client) m)
  kickout-IsAwake takes m a =
      let c = record m.client { dis_code = kickout; should_reconnect = false } in
      let d = break_read_write true c in
      let h = break_read_write-told c a.working in
      subst (λ e. IsAwake (at pinging e m))
        (sym (disconnect_async-runs takes kickout false m.client a.threaded))
        (hold (at pinging d m) (break_connect takes d)
          (told-IsAwake d pinging m.holder m.firing (h.0 ∙ a.threaded) (h.1 ∙ a.callback) h.2 h.3)
          (break_connect-IsQuieter takes d))

  emit-IsQuieter :
      (c : Client C) (b : Bool) (t : ℕ)
      → IsQuieter c (if b then emit (server_disconnect t) c else c)
  emit-IsQuieter c b t = ground arith

  handle_disconnect-IsAwake :
      (takes : Bool) (x : Disconnect) (m : Moment C)
      → IsAwake (at pinging m.client m)
      → IsAwake m
      → IsAwake (at pinging (handle_disconnect true takes x m.client) m)
  unfolding handle_disconnect
  handle_disconnect-IsAwake takes x m k a =
      let b = x.disconnect_type == 1 in
      let c = if b then disconnect_async true takes kickout false m.client else m.client in
      hold (at pinging c m) _
        (if_both (λ d. IsAwake (at pinging d m)) b _ _ (kickout-IsAwake takes m a) k)
        (emit-IsQuieter c c.listeners.on_server_disconnect x.disconnect_type)

  pub dispatch-IsAwake :
      (t : Turn C) (x : Message) (m : Moment C)
      → m.place ≡ reading
      → t.breaker_writes ≡ true
      → IsAwake m
      → IsAwake (at pinging (dispatch t x m.client) m)
  unfolding dispatch
  dispatch-IsAwake t (ping_resp x) m p e a =
      advance m pinging _ a (cancel_ping_late-IsQuieter m.client) (ground (arith, p))
  dispatch-IsAwake t (send_req x) m p e a =
      advance m pinging _ a (handle_send_req-IsQuieter x m.client) (ground (arith, p))
  dispatch-IsAwake t (send_resp x) m p e a =
      advance m pinging _ a (handle_send_resp-IsQuieter x m.client) (ground (arith, p))
  dispatch-IsAwake t (disconnect x) m p e a =
      subst (λ w. IsAwake (at pinging (handle_disconnect w t.conn_breaker_writes x m.client) m))
        (sym e)
        (handle_disconnect-IsAwake t.conn_breaker_writes x m
          (advance m pinging _ a (IsQuieter-refl m.client) (ground (arith, p))) a)
  dispatch-IsAwake t (connect x) m p e a =
      advance m pinging _ a (IsQuieter-refl m.client) (ground (arith, p))
  dispatch-IsAwake t (conn_ack x) m p e a =
      advance m pinging _ a (IsQuieter-refl m.client) (ground (arith, p))
  dispatch-IsAwake t (ping_req x) m p e a =
      advance m pinging _ a (IsQuieter-refl m.client) (ground (arith, p))
