-- ===== src/Client/Requests.antt =====
-- tcp_client.cpp: Send, SendNoReply and SendDisconnect.
pub mod Ids
use go_socket_client.Prelude.{
  [], ℕ, ◌+◌, ◌%◌, ◌^◌, Bool, true, false, not, Option, none, some, ◌∷◌, ◌++◌, ◌==◌, if◌then◌else◌,
}
use go_socket_client.Prelude.StdMap.{put}
use go_socket_client.Packet.Gzip.{Bytes}
use go_socket_client.Packet.Message.{
  SendReq, send_req, disconnect, new_header, send_req_type, disconnect_message_type,
  rlevel_reply_later, rlevel_no_reply, set_data,
}
use go_socket_client.Socket.Breaker.{break}
use go_socket_client.Client.{Client, not_connect, is_connected, respond_to}

abbrev pub uint16_max : ℕ
uint16_max = 65535

-- `_currentMsgId++`, which starts again at 1 when it reaches UINT16_MAX.
unfoldable pub next_msg_id : ℕ → ℕ
next_msg_id i = let n = (i + 1) % 2 ^ 16 in if n == uint16_max then 1 else n

-- A request as its constructor and the setters of Send leave it, without data.
unfoldable pub plain_send_req : ℕ → Bytes → Bytes → SendReq
plain_send_req i kind payload = record {
  header = new_header send_req_type;
  reply_level = rlevel_reply_later;
  has_data = false;
  message_id = i;
  kind = kind;
  payload = payload;
  content = [];
}

-- The request that Send builds.
unfoldable pub new_send_req : ℕ → Bytes → Bytes → Option Bytes → SendReq
new_send_req i kind payload content = elim content [
  | none ↦ plain_send_req i kind payload
  | some bs ↦ set_data bs (plain_send_req i kind payload)
]

module _ {ℓ} {C : Type ℓ} where
  -- A signal whose result is not looked at; the first argument says whether the pipe takes a byte.
  unfoldable pub notify : Bool → Client C → Client C
  notify writes c = record c { read_write_breaker = (break writes c.read_write_breaker).1 }

  -- TcpClient::Send; `content` is `none` for a null `data`.
  unfoldable pub send : Bool → Bytes → Bytes → Option Bytes → Option C → Client C → Bool × Client C
  send writes kind payload content func c =
      if not (is_connected c.status) then (false, respond_to func not_connect [] c) else (
        true,
        notify writes (record c {
          callback_map = put c.current_msg_id func c.callback_map;
          message_queue =
              c.message_queue
              ++ (send_req (new_send_req c.current_msg_id kind payload content) ∷ []);
          current_msg_id = next_msg_id c.current_msg_id;
        }),
      )

  -- TcpClient::SendNoReply
  unfoldable pub send_no_reply : Bool → Bytes → Bytes → Client C → Bool × Client C
  send_no_reply writes kind payload c = if not (is_connected c.status) then (false, c) else (
    true,
    notify writes (record c {
      message_queue =
          c.message_queue
          ++ (send_req (record (plain_send_req 0 kind payload) { reply_level = rlevel_no_reply })
              ∷ []);
    }),
  )

  -- TcpClient::SendDisconnect
  unfoldable pub send_disconnect : Bool → Client C → Client C
  send_disconnect writes c =
      if not (is_connected c.status)
      then c
      else notify writes (record c {
        message_queue =
            c.message_queue
            ++ (disconnect
                  (record { header = new_header disconnect_message_type; disconnect_type = 0 })
                ∷ []);
      })
