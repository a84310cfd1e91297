-- ===== src/Client/Wakeup/Calm.antt =====
-- tcp_client.cpp: answers, messages and writes leave the breaker alone, and give nothing new to do.
use go_socket_client.Prelude.{ℕ, ◌≡◌, refl, true, Option, List, ◌∷◌, arith}
use go_socket_client.Packet.Gzip.{Bytes}
use go_socket_client.Packet.Message.{
  Message, SendReq, SendResp, connect, conn_ack, ping_req, ping_resp, disconnect, send_req,
  send_resp,
}
use go_socket_client.Client.{Client, ErrorCode, respond_to}
use go_socket_client.Client.Calls.{
  make_sure_connected, get_callback, stop_timeout, answer, drop_timeout, handle_send_resp,
  handle_send_req,
}
use go_socket_client.Client.Loop.{cancel_ping, start_timeout, note_request, written}
use go_socket_client.Client.Wakeup.Quiet.{
  IsQuieter, IsQuieter-refl, IsQuieter-trans, start_ping-IsQuieter, cancel_ping-IsQuieter,
  start_timeout-IsQuieter,
}

module _ {ℓ} {C : Type ℓ} where
  pub respond_to-IsQuieter :
      (f : Option C) (code : ErrorCode) (payload : Bytes) (c : Client C)
      → IsQuieter c (respond_to f code payload c)
  unfolding respond_to
  respond_to-IsQuieter f code payload c = ground arith

  pub drop_timeout-IsQuieter : (i : ℕ) (c : Client C) → IsQuieter c (drop_timeout i c)
  unfolding drop_timeout
  drop_timeout-IsQuieter i c = ground arith

  stop_timeout-IsQuieter : (i : ℕ) (c : Client C) → IsQuieter c (stop_timeout i c)
  unfolding stop_timeout
  stop_timeout-IsQuieter i c = ground arith

  get_callback-IsQuieter : (i : ℕ) (c : Client C) → IsQuieter c (get_callback i c).1
  unfolding get_callback
  get_callback-IsQuieter i c = ground arith

  pub answer-IsQuieter :
      (i : ℕ) (code : ErrorCode) (payload : Bytes) (c : Client C)
      → IsQuieter c (answer i code payload c)
  unfolding answer
  answer-IsQuieter i code payload c =
      IsQuieter-trans c (get_callback i c).1 _ (get_callback-IsQuieter i c)
        (respond_to-IsQuieter (get_callback i c).0 code payload (get_callback i c).1)

  pub handle_send_resp-IsQuieter :
      (x : SendResp) (c : Client C) → IsQuieter c (handle_send_resp x c)
  unfolding handle_send_resp
  handle_send_resp-IsQuieter x c =
      IsQuieter-trans c (stop_timeout x.message_id c) _ (stop_timeout-IsQuieter x.message_id c)
        (answer-IsQuieter x.message_id _ x.payload (stop_timeout x.message_id c))

  pub handle_send_req-IsQuieter : (x : SendReq) (c : Client C) → IsQuieter c (handle_send_req x c)
  unfolding handle_send_req
  handle_send_req-IsQuieter x c = ground arith

  note_request-IsQuieter :
      (now : ℕ) (x : Message) (c : Client C) → IsQuieter c (note_request now x c)
  unfolding note_request
  note_request-IsQuieter now (send_req x) c = start_timeout-IsQuieter now x.message_id c
  note_request-IsQuieter now (connect x) c = IsQuieter-refl c
  note_request-IsQuieter now (conn_ack x) c = IsQuieter-refl c
  note_request-IsQuieter now (ping_req x) c = IsQuieter-refl c
  note_request-IsQuieter now (ping_resp x) c = IsQuieter-refl c
  note_request-IsQuieter now (disconnect x) c = IsQuieter-refl c
  note_request-IsQuieter now (send_resp x) c = IsQuieter-refl c

  note_request-queue :
      (now : ℕ) (x : Message) (c : Client C)
      → (note_request now x c).message_queue ≡ c.message_queue
  unfolding note_request start_timeout
  note_request-queue now (send_req x) c = refl
  note_request-queue now (connect x) c = refl
  note_request-queue now (conn_ack x) c = refl
  note_request-queue now (ping_req x) c = refl
  note_request-queue now (ping_resp x) c = refl
  note_request-queue now (disconnect x) c = refl
  note_request-queue now (send_resp x) c = refl

  pub written-IsQuieter :
      (now : ℕ) (x : Message) (rest : List Message) (c : Client C)
      → c.message_queue ≡ x ∷ rest
      → IsQuieter c (written now x rest c)
  unfolding written
  written-IsQuieter now x rest c e =
      let d = note_request now x c in
      let f = record d { message_queue = rest } in
      let h = note_request-IsQuieter now x c in
      let k : IsQuieter c f = record {
        thread_same = h.thread_same;
        breaker_same = h.breaker_same;
        callback_same = h.callback_same;
        code_less = h.code_less;
        late_less = h.late_less;
        ping_less = h.ping_less;
        message_less = λ g. ground (arith, e);
      } in
      IsQuieter-trans c (cancel_ping f) _ (IsQuieter-trans c f _ k (cancel_ping-IsQuieter f))
        (start_ping-IsQuieter now (cancel_ping f))

  pub make_sure_connected-IsQuieter :
      (c : Client C) → c.has_thread ≡ true → IsQuieter c (make_sure_connected c)
  unfolding make_sure_connected
  make_sure_connected-IsQuieter c h = ground (arith, h)
