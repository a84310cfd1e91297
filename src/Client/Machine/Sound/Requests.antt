-- ===== src/Client/Machine/Sound/Requests.antt =====
-- tcp_client.cpp: Send and its variants keep the client sound.
use go_socket_client.Prelude.{ℕ, Bool, Option, arith}
use go_socket_client.Prelude.StdMap.{keys-put-All, put-IsSorted}
use go_socket_client.Packet.Gzip.{Bytes}
use go_socket_client.Client.{Client, respond_to}
use go_socket_client.Client.Requests.{notify, send, send_no_reply, send_disconnect, next_msg_id}
use go_socket_client.Client.Machine.Sound.{IsId, IsSound, break-IsReady, break-usable}

next_msg_id-IsId : (i : ℕ) → IsId i → IsId (next_msg_id i)
unfolding next_msg_id
next_msg_id-IsId i h = ground arith

module _ {ℓ} {C : Type ℓ} where
  pub notify-IsSound : (w : Bool) (c : Client C) → IsSound c → IsSound (notify w c)
  unfolding notify
  notify-IsSound w c h =
      ground
        (arith, break-IsReady w c.read_write_breaker h.reading, break-usable w c.read_write_breaker)

  pub send-IsSound :
      (w : Bool) (kind payload : Bytes) (content : Option Bytes) (func : Option C) (c : Client C)
      → IsSound c
      → IsSound (send w kind payload content func c).1
  unfolding send notify respond_to
  send-IsSound w kind payload content func c h = ground (
    arith,
    put-IsSorted c.current_msg_id func c.callback_map h.callbacks_sorted,
    keys-put-All IsId c.current_msg_id func c.callback_map h.current_id h.callback_ids,
    next_msg_id-IsId c.current_msg_id h.current_id,
    break-IsReady w c.read_write_breaker h.reading,
    break-usable w c.read_write_breaker,
  )

  pub send_no_reply-IsSound :
      (w : Bool) (kind payload : Bytes) (c : Client C)
      → IsSound c
      → IsSound (send_no_reply w kind payload c).1
  unfolding send_no_reply notify
  send_no_reply-IsSound w kind payload c h =
      ground
        (arith, break-IsReady w c.read_write_breaker h.reading, break-usable w c.read_write_breaker)

  pub send_disconnect-IsSound :
      (w : Bool) (c : Client C) → IsSound c → IsSound (send_disconnect w c)
  unfolding send_disconnect notify
  send_disconnect-IsSound w c h =
      ground
        (arith, break-IsReady w c.read_write_breaker h.reading, break-usable w c.read_write_breaker)
