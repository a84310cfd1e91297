-- ===== src/Tests/MessageTests.antt =====
-- The theorems on the round trips of the other messages at concrete inputs.
use go_socket_client.Prelude.{◌≤◌, ◌≡◌, refl, true, [], ◌∷◌, ◌++◌, arith}
use go_socket_client.Packet.Error.{ok}
use go_socket_client.Packet.Reader.{stream}
use go_socket_client.Packet.Gzip.{Bytes}
use go_socket_client.Packet.Encoding.Groups.{groups}
use go_socket_client.Packet.Header.{max_payload_size}
use go_socket_client.Packet.Message.ConnectTrip.{
  IsGreeting, connect_length, sent_connect, decode_message-encode_connect,
}
use go_socket_client.Packet.Message.SmallTrips.{
  Trips, new_ping_req, new_ping_resp, a_disconnect, decode_message-encode_small,
  encode_send_resp-same,
}
use go_socket_client.Packet.Message.{
  connect_type, protocol_name, protocol_version, Connect, SendResp, send_resp_type, Message,
  new_header,
}
use go_socket_client.Packet.Message.Encode.{encode_message}
use go_socket_client.Packet.Message.Decode.{decode_message}
use go_socket_client.Tests.PacketTests.{toy_gzip, closed}

decode_message-encode_small_example :
    Trips toy_gzip new_ping_req new_ping_req (5 ∷ []) closed
    × Trips toy_gzip new_ping_resp new_ping_resp (5 ∷ []) closed
    × Trips toy_gzip (a_disconnect 0 1) (a_disconnect 1 1) (5 ∷ []) closed
decode_message-encode_small_example =
    decode_message-encode_small toy_gzip (5 ∷ []) closed 1 (omega arith)

abbrev answer_3 : SendResp
answer_3 = record { header = new_header send_resp_type; message_id = 3; payload = 5 ∷ [] }

encode_send_resp-same_example :
    encode_message toy_gzip (Message.send_resp (record answer_3 { message_id = 4 }))
    ≡ encode_message toy_gzip (Message.send_resp answer_3)
encode_send_resp-same_example = encode_send_resp-same toy_gzip answer_3 4

abbrev greeting : Connect
greeting = record {
  header = new_header connect_type;
  name = protocol_name;
  version = protocol_version;
  keep_alive = 60;
  payload = 8 ∷ [];
  gzip_enabled = true;
}

greeting-IsGreeting : IsGreeting toy_gzip greeting (0 ∷ 8 ∷ [])
greeting-IsGreeting = record {
  compressed = refl;
  typed = refl;
  no_flags = refl;
  named = refl;
  versioned = refl;
  interval = omega arith;
  payload_length = omega arith;
  payload_size = omega arith;
}

greeting_fits : connect_length greeting (0 ∷ 8 ∷ []) ≤ max_payload_size
unfolding groups
greeting_fits = omega arith

decode_message-encode_connect_example :
    (bytes : Bytes) × (encode_message toy_gzip (Message.connect greeting) ≡ ok bytes)
    × (decode_message toy_gzip (stream (bytes ++ 5 ∷ []) closed)
        ≡ ok (
          Message.connect (record greeting { header = sent_connect greeting (0 ∷ 8 ∷ []) }),
          stream (5 ∷ []) closed,
        ))
decode_message-encode_connect_example =
    decode_message-encode_connect toy_gzip greeting (0 ∷ 8 ∷ []) greeting-IsGreeting (5 ∷ []) closed
      greeting_fits
