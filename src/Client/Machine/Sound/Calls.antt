-- ===== src/Client/Machine/Sound/Calls.antt =====
-- tcp_client.cpp: the calls of the user and of the timers keep the client sound.
use go_socket_client.Prelude.{
  ◌&&◌, ℕ, ◌+◌, ◌≡◌, sym, ap, ◌∙◌, inl, inr, Bool, true, false, List, [], ◌∷◌, arith, ◌==◌,
  Bool-cases,
}
use go_socket_client.Prelude.StdMap.{keys-erase-All, keys, erase-IsSorted}
use go_socket_client.Packet.Gzip.{Bytes}
use go_socket_client.Packet.Message.{SendReq, SendResp, Disconnect}
use go_socket_client.Socket.Breaker.{break, re_create}
use go_socket_client.Client.{
  Client, ConnectStatus, DisconnectCode, ErrorCode, kickout, send_req_timeout, timeout,
  lose_connect, no_error, respond_to,
}
use go_socket_client.Client.Calls.{
  make_sure_connected, break_read_write, break_connect, disconnect_async, stop_timeout,
  drop_timeout, renew_breakers, stop_all, set_connect_status, get_callback, answer,
  handle_send_resp, handle_send_req, handle_disconnect, on_send_late, lose_all, wait_disconnect,
  on_reconnect,
}
use go_socket_client.Client.Machine.Sound.{
  IsId, IsSound, break-IsReady, break-usable, break-broken, clear-IsReady, close-usable,
  close-IsReady, if-IsSound,
}

held_closed : (a b c : Bool) → (a && b && c) ≡ false → a ≡ true → b ≡ true → c ≡ false
held_closed a b c h k l = ground (arith, h, k, l)

module _ {ℓ} {C : Type ℓ} where
  pub make_sure_connected-IsSound : (c : Client C) → IsSound c → IsSound (make_sure_connected c)
  unfolding make_sure_connected
  make_sure_connected-IsSound c h = ground (
    arith,
    clear-IsReady c.read_write_breaker h.reading,
    clear-IsReady c.connect_breaker h.connecting,
  )

  pub break_read_write-IsSound :
      (w : Bool) (c : Client C) → IsSound c → IsSound (break_read_write w c)
  unfolding break_read_write
  break_read_write-IsSound w c h = ground (
    arith,
    break-IsReady w c.read_write_breaker h.reading,
    break-broken w c.read_write_breaker,
    break-usable w c.read_write_breaker,
    close-usable (break w c.read_write_breaker).1,
    close-IsReady (break w c.read_write_breaker).1,
  )

  pub stop_timeout-IsSound : (i : ℕ) (c : Client C) → IsSound c → IsSound (stop_timeout i c)
  unfolding stop_timeout
  stop_timeout-IsSound i c h = ground (arith, erase-IsSorted i c.timeout_alarms h.alarms_sorted)

  pub answer-IsSound :
      (i : ℕ) (code : ErrorCode) (payload : Bytes) (c : Client C)
      → IsSound c
      → IsSound (answer i code payload c)
  unfolding answer get_callback respond_to
  answer-IsSound i code payload c h = ground (
    arith,
    erase-IsSorted i c.callback_map h.callbacks_sorted,
    keys-erase-All IsId i c.callback_map h.callback_ids,
  )

  pub break_connect-IsSound : (w : Bool) (c : Client C) → IsSound c → IsSound (break_connect w c)
  unfolding break_connect
  break_connect-IsSound w c h = ground (
    arith,
    break-IsReady w c.connect_breaker h.connecting,
    break-broken w c.connect_breaker,
    break-usable w c.connect_breaker,
    close-usable (break w c.connect_breaker).1,
    close-IsReady (break w c.connect_breaker).1,
  )

  pub disconnect_async-IsSound :
      (w cw : Bool) (code : DisconnectCode) (again : Bool) (c : Client C)
      → IsSound c
      → IsSound (disconnect_async w cw code again c)
  unfolding disconnect_async
  disconnect_async-IsSound w cw code again c h =
      let d = record c { dis_code = code; should_reconnect = again } in
      let k : IsSound d = ground arith in
      if-IsSound c.has_thread _ _ (break_connect-IsSound cw _ (break_read_write-IsSound w d k))
        (if-IsSound again _ _ (make_sure_connected-IsSound c h) h)

  pub drop_timeout-IsSound : (i : ℕ) (c : Client C) → IsSound c → IsSound (drop_timeout i c)
  unfolding drop_timeout
  drop_timeout-IsSound i c h = ground (arith, erase-IsSorted i c.timeout_alarms h.alarms_sorted)

  -- `get_callback` as a part of `answer`.
  pub get_callback-IsSound : (i : ℕ) (c : Client C) → IsSound c → IsSound (get_callback i c).1
  unfolding get_callback
  get_callback-IsSound i c h = ground (
    arith,
    erase-IsSorted i c.callback_map h.callbacks_sorted,
    keys-erase-All IsId i c.callback_map h.callback_ids,
  )

  pub lose_all-IsSound : (is : List ℕ) (c : Client C) → IsSound c → IsSound (lose_all is c).1
  unfolding lose_all
  lose_all-IsSound [] c h = h
  lose_all-IsSound (i ∷ is) c h = ground (
    arith,
    get_callback-IsSound i c h,
    lose_all-IsSound is (answer i lose_connect [] c) (answer-IsSound i lose_connect [] c h),
  )

  pub stop_all-IsSound : (c : Client C) → IsSound c → IsSound (stop_all c)
  unfolding stop_all
  stop_all-IsSound c h = ground arith

  -- The same breakers and flags.
  record SameBreakers (c d : Client C) : Type 0 where
    reading_same : d.read_write_breaker ≡ c.read_write_breaker
    connecting_same : d.connect_breaker ≡ c.connect_breaker
    renew_reading_same : d.should_new_breaker ≡ c.should_new_breaker
    renew_connecting_same : d.should_new_conn_breaker ≡ c.should_new_conn_breaker
    thread_same : d.has_thread ≡ c.has_thread

  lose_all-SameBreakers : (is : List ℕ) (c : Client C) → SameBreakers c (lose_all is c).1
  unfolding lose_all answer get_callback respond_to
  lose_all-SameBreakers [] c = ground arith
  lose_all-SameBreakers (i ∷ is) c =
      ground (arith, lose_all-SameBreakers is (answer i lose_connect [] c))

  -- A breaker is made again when it was closed, so that it has noted no signal.
  pub renew_breakers-IsSound :
      (made conn_made : Bool) (c : Client C)
      → IsSound c
      → c.has_thread ≡ false
      → (c.should_new_breaker ≡ true → c.read_write_breaker.usable ≡ false)
      → (c.should_new_conn_breaker ≡ true → c.connect_breaker.usable ≡ false)
      → IsSound (renew_breakers made conn_made c)
  unfolding renew_breakers re_create
  renew_breakers-IsSound made conn_made c h t r k = ground arith

  pub wait_disconnect-IsSound :
      (made conn_made : Bool) (c : Client C)
      → IsSound c
      → IsSound (wait_disconnect made conn_made c)
  unfolding wait_disconnect stop_all
  wait_disconnect-IsSound made conn_made c h = elim (Bool-cases c.has_thread) [
    | inl e ↦
        let l = lose_all (keys c.timeout_alarms) (stop_all c) in
        let k = lose_all-IsSound (keys c.timeout_alarms) (stop_all c) (stop_all-IsSound c h) in
        let s = lose_all-SameBreakers (keys c.timeout_alarms) (stop_all c) in
        if-IsSound c.has_thread _ _
          (if-IsSound l.0 _ _
            (renew_breakers-IsSound made conn_made l.1 k s.thread_same
              (λ a.
                ap (λ b. b.usable) s.reading_same
                ∙ held_closed c.has_thread c.should_new_breaker c.read_write_breaker.usable
                    h.reading_closed e (sym s.renew_reading_same ∙ a))
              (λ a.
                ap (λ b. b.usable) s.connecting_same
                ∙ held_closed c.has_thread c.should_new_conn_breaker c.connect_breaker.usable
                    h.connecting_closed e (sym s.renew_connecting_same ∙ a)))
            k)
          h
    | inr e ↦ ground (arith, e)
  ]

  pub on_send_late-IsSound :
      (w cw : Bool) (i : ℕ) (c : Client C) → IsSound c → IsSound (on_send_late w cw i c)
  unfolding on_send_late
  on_send_late-IsSound w cw i c h =
      let c2 = answer i timeout [] (drop_timeout i c) in
      let k = answer-IsSound i timeout [] (drop_timeout i c) (drop_timeout-IsSound i c h) in
      let c3 = record c2 { timeout_disconnect = true } in
      let k3 : IsSound c3 = ground arith in
      let l = disconnect_async-IsSound w cw send_req_timeout true c3 k3 in ground (arith, k, l)

  pub handle_send_resp-IsSound :
      (m : SendResp) (c : Client C) → IsSound c → IsSound (handle_send_resp m c)
  unfolding handle_send_resp
  handle_send_resp-IsSound m c h =
      answer-IsSound m.message_id no_error m.payload (stop_timeout m.message_id c)
        (stop_timeout-IsSound m.message_id c h)

  pub handle_send_req-IsSound :
      (m : SendReq) (c : Client C) → IsSound c → IsSound (handle_send_req m c)
  unfolding handle_send_req
  handle_send_req-IsSound m c h = ground arith

  pub handle_disconnect-IsSound :
      (w cw : Bool) (m : Disconnect) (c : Client C)
      → IsSound c
      → IsSound (handle_disconnect w cw m c)
  unfolding handle_disconnect
  handle_disconnect-IsSound w cw m c h =
      let k =
        if-IsSound (m.disconnect_type == 1) _ _ (disconnect_async-IsSound w cw kickout false c h)
          h in
      ground (arith, k)

  pub set_connect_status-IsSound :
      (s : ConnectStatus) (c : Client C) → IsSound c → IsSound (set_connect_status s c)
  unfolding set_connect_status
  set_connect_status-IsSound s c h = ground arith

  pub on_reconnect-IsSound :
      (made conn_made : Bool) (c : Client C) → IsSound c → IsSound (on_reconnect made conn_made c)
  unfolding on_reconnect
  on_reconnect-IsSound made conn_made c h =
      let d = wait_disconnect made conn_made c in
      let k = wait_disconnect-IsSound made conn_made c h in
      let e = record d { reconnect_count = d.reconnect_count + 1 } in
      let l : IsSound e = ground arith in
      if-IsSound d.should_reconnect _ _ (make_sure_connected-IsSound e l) k
