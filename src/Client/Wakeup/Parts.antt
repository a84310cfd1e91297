-- ===== src/Client/Wakeup/Parts.antt =====
-- tcp_client.cpp and common/alarm.cpp: the places where another thread can come between, and the parts
-- of calls that end there.
use go_socket_client.Prelude.{[], Bool, Option, ◌∷◌, ◌++◌}
use go_socket_client.Prelude.StdMap.{put}
use go_socket_client.Packet.Gzip.{Bytes}
use go_socket_client.Packet.Message.{
  send_req, disconnect, new_header, disconnect_message_type, rlevel_no_reply,
}
use go_socket_client.Timer.Alarm.{fire}
use go_socket_client.Client.{Client}
use go_socket_client.Client.Requests.{next_msg_id, new_send_req, plain_send_req}

-- Where the client's thread stands. The flag says whether the select watches the socket for writing.
pub data Place : Type 0 where
  connecting : Place  -- __RunConnect
  starting : Place  -- the head of the loop
  prepared : Place  -- the ping alarm runs; the queue is not looked at yet
  selecting : Bool → Place  -- the poll
  woken : Bool → Place  -- it has answered
  cleared : Bool → Place  -- the breaker is cleared; the code is not looked at yet
  looking : Bool → Place  -- before the alarm for late answers to pings
  writing : Bool → Place
  reading : Place
  pinging : Place
  left : Place  -- the loop is left; what follows it is not in these steps

-- Who has the lock `_mutex` and still has to break, in DisconnectAsync twice.
pub data Holder : Type 0 where
  nobody telling breaking_read_write breaking_connect : Holder

-- `firing`: the thread of the timers has noted an alarm and still has to break.
pub record Moment {ℓ} (C : Type ℓ) : Type ℓ where
  pub client : Client C
  pub place : Place
  pub holder : Holder
  pub firing : Bool

module _ {ℓ} {C : Type ℓ} where
  -- Send before its Break
  unfoldable pub enqueue : Bytes → Bytes → Option Bytes → Option C → Client C → Client C
  enqueue kind payload content func c = record c {
    callback_map = put c.current_msg_id func c.callback_map;
    message_queue =
        c.message_queue ++ (send_req (new_send_req c.current_msg_id kind payload content) ∷ []);
    current_msg_id = next_msg_id c.current_msg_id;
  }

  -- SendNoReply before its Break
  unfoldable pub enqueue_no_reply : Bytes → Bytes → Client C → Client C
  enqueue_no_reply kind payload c = record c {
    message_queue =
        c.message_queue
        ++ (send_req (record (plain_send_req 0 kind payload) { reply_level = rlevel_no_reply })
            ∷ []);
  }

  -- SendDisconnect before its Break
  unfoldable pub enqueue_disconnect : Client C → Client C
  enqueue_disconnect c = record c {
    message_queue =
        c.message_queue
        ++ (disconnect (record { header = new_header disconnect_message_type; disconnect_type = 0 })
            ∷ []);
  }

  -- The callback of an alarm, before its Break
  unfoldable pub fire_ping : Client C → Client C
  fire_ping c = record c { ping_alarm = (fire c.ping_alarm).1 }

  unfoldable pub fire_ping_late : Client C → Client C
  fire_ping_late c = record c { ping_timeout_alarm = (fire c.ping_timeout_alarm).1 }

  abbrev pub at : Place → Client C → Moment C → Moment C
  at p c m = record m { place = p; client = c }
