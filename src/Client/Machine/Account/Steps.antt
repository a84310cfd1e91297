-- ===== src/Client/Machine/Account/Steps.antt =====
-- tcp_client.cpp: the account of the callbacks through each operation.
use go_socket_client.Prelude.{
  ℕ, ◌+◌, ◌≡◌, refl, ◌∙◌, inl, inr, Bool, true, false, Option, none, List, [], ◌∷◌, arith,
  Bool-cases,
}
use go_socket_client.Prelude.StdMap.{find, keys}
use go_socket_client.Packet.Gzip.{Bytes}
use go_socket_client.Client.{
  disconnected, kickout, send_req_timeout, no_error, lose_connect, timeout, not_connect, Client,
  ConnectStatus, status_change, push, server_disconnect, is_connected,
}
use go_socket_client.Client.Calls.{
  disconnect_async, set_connect_status, answer, handle_send_resp, handle_send_req,
  handle_disconnect, on_send_late, lose_all, wait_disconnect, on_reconnect, stop_timeout,
  drop_timeout, stop_all, renew_breakers, make_sure_connected,
}
use go_socket_client.Client.Requests.{send, notify}
use go_socket_client.Packet.Message.{SendReq, SendResp, Disconnect}
use go_socket_client.Client.Loop.{finish}
use go_socket_client.Client.Machine.Keeps.{
  make_sure_connected-SameBook, disconnect_async-SameBook, stop_timeout-SameBook,
  drop_timeout-SameBook, renew_breakers-SameBook, stop_all-SameBook,
}
use go_socket_client.Client.Machine.Account.{
  weight, account, waiting-put, SameBook-account, emit-account, respond-account,
  get_callback-account, answer-account,
}

module _ {ℓ} {C : Type ℓ} (p : C → Bool) where
  pub lose_all-account : (is : List ℕ) (c : Client C) → account p (lose_all is c).1 ≡ account p c
  unfolding lose_all
  lose_all-account [] c = refl
  lose_all-account (i ∷ is) c = ground (
    arith,
    get_callback-account p i c,
    answer-account p i lose_connect [] c,
    lose_all-account is (answer i lose_connect [] c),
  )

  pub wait_disconnect-account :
      (made conn_made : Bool) (c : Client C)
      → account p (wait_disconnect made conn_made c) ≡ account p c
  unfolding wait_disconnect
  wait_disconnect-account made conn_made c =
      let r = (lose_all (keys c.timeout_alarms) (stop_all c)).1 in
      ground (
        arith,
        SameBook-account p c (stop_all c) (stop_all-SameBook c),
        lose_all-account (keys c.timeout_alarms) (stop_all c),
        SameBook-account p r (renew_breakers made conn_made r)
            (renew_breakers-SameBook made conn_made r),
      )

  pub on_send_late-account :
      (w cw : Bool) (i : ℕ) (c : Client C) → account p (on_send_late w cw i c) ≡ account p c
  unfolding on_send_late
  on_send_late-account w cw i c =
      let c1 = drop_timeout i c in
      let c2 = answer i timeout [] c1 in
      let c3 = record c2 { timeout_disconnect = true } in
      ground (
        arith,
        SameBook-account p c c1 (drop_timeout-SameBook i c),
        answer-account p i timeout [] c1,
        SameBook-account p c2 c3 (record { map_same = refl; effects_same = refl; id_same = refl }),
        SameBook-account p c3 (disconnect_async w cw send_req_timeout true c3)
            (disconnect_async-SameBook w cw send_req_timeout true c3),
      )

  pub handle_send_resp-account :
      (m : SendResp) (c : Client C) → account p (handle_send_resp m c) ≡ account p c
  unfolding handle_send_resp
  handle_send_resp-account m c =
      answer-account p m.message_id no_error m.payload (stop_timeout m.message_id c)
      ∙ SameBook-account p c _ (stop_timeout-SameBook m.message_id c)

  pub handle_send_req-account :
      (m : SendReq) (c : Client C) → account p (handle_send_req m c) ≡ account p c
  unfolding handle_send_req
  handle_send_req-account m c = ground (arith, emit-account p (push m.kind m.payload) c refl)

  pub handle_disconnect-account :
      (w cw : Bool) (m : Disconnect) (c : Client C)
      → account p (handle_disconnect w cw m c) ≡ account p c
  unfolding handle_disconnect
  handle_disconnect-account w cw m c =
      let d = disconnect_async w cw kickout false c in
      ground (
        arith,
        SameBook-account p c d (disconnect_async-SameBook w cw kickout false c),
        emit-account p (server_disconnect m.disconnect_type) d refl,
        emit-account p (server_disconnect m.disconnect_type) c refl,
      )

  pub set_connect_status-account :
      (s : ConnectStatus) (c : Client C) → account p (set_connect_status s c) ≡ account p c
  unfolding set_connect_status
  set_connect_status-account s c =
      let d = record c { status = s } in
      ground (
        arith,
        emit-account p (status_change s) d refl,
        SameBook-account p c d (record { map_same = refl; effects_same = refl; id_same = refl }),
      )

  pub on_reconnect-account :
      (made conn_made : Bool) (c : Client C)
      → account p (on_reconnect made conn_made c) ≡ account p c
  unfolding on_reconnect
  on_reconnect-account made conn_made c =
      let d = wait_disconnect made conn_made c in
      let e = record d { reconnect_count = d.reconnect_count + 1 } in
      ground (
        arith,
        wait_disconnect-account made conn_made c,
        SameBook-account p d e (record { map_same = refl; effects_same = refl; id_same = refl }),
        SameBook-account p e (make_sure_connected e) (make_sure_connected-SameBook e),
      )

  pub finish-account : (now : ℕ) (c : Client C) → account p (finish now c) ≡ account p c
  unfolding finish
  finish-account now c =
      let d = record c { has_socket = false } in
      let e = set_connect_status disconnected d in
      ground (
        arith,
        SameBook-account p c d (record { map_same = refl; effects_same = refl; id_same = refl }),
        set_connect_status-account disconnected d,
        SameBook-account p e (finish now c)
            (unfold finish in record { map_same = refl; effects_same = refl; id_same = refl }),
      )

  pub send-account :
      (w : Bool) (kind payload : Bytes) (content : Option Bytes) (func : Option C) (c : Client C)
      → (is_connected c.status ≡ true → find c.current_msg_id c.callback_map ≡ none)
      → account p (send w kind payload content func c).1 ≡ weight p func + account p c
  unfolding send notify
  send-account w kind payload content func c free = elim (Bool-cases (is_connected c.status)) [
    | inl e ↦
        rw (send, e)
          (unfold account in
            omega (arith, waiting-put p c.current_msg_id func c.callback_map (free e)))
    | inr e ↦ rw (send, e) (respond-account p func not_connect [] c)
  ]
