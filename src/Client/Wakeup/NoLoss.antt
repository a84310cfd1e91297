-- ===== src/Client/Wakeup/NoLoss.antt =====
-- tcp_client.cpp: what the client's thread sleeps through, from MakeSureConnected on.
use go_socket_client.Prelude.{◌≡◌, refl, Bool, true, false, not, ◌&&◌, ◌||◌, Option, arith}
use go_socket_client.Packet.Gzip.{Bytes}
use go_socket_client.Client.{Client, is_connected, is_dis_none}
use go_socket_client.Client.Calls.{make_sure_connected}
use go_socket_client.Client.Requests.{send, send_no_reply, send_disconnect, notify}
use go_socket_client.Client.Wakeup.{
  selecting, nobody, Moment, Reach, here, later, begin, enqueue, enqueue_no_reply,
  enqueue_disconnect,
}
use go_socket_client.Client.Wakeup.Quiet.{has_code, has_late, has_ping, has_message}
use go_socket_client.Client.Wakeup.Awake.{IsWorking, IsAwake, clear-IsWorking}
use go_socket_client.Client.Wakeup.Run.{Step-IsAwake}

module _ {ℓ} {C : Type ℓ} where
  -- A client whose MakeSureConnected starts a thread: its breaker works, and the alarms of the pings are
  -- not left over from an earlier connection, whose end cancels them.
  pub record CanStart (c : Client C) : Type 0 where
    pub not_connected : is_connected c.status ≡ false
    pub no_thread : c.has_thread ≡ false
    pub working : IsWorking c.read_write_breaker
    pub callback : c.ping_alarm.has_callback ≡ true
    pub no_ping : has_ping c ≡ false
    pub no_late : has_late c ≡ false

  -- What the thread would do if it did not sleep in a select that watches the socket for writing if `w`.
  abbrev pub has_work : Bool → Client C → Bool
  has_work w c = has_code c || has_late c || has_ping c || (not w && has_message c)

  pub begin-IsAwake : (c : Client C) → CanStart c → IsAwake (begin c)
  unfolding make_sure_connected is_dis_none
  begin-IsAwake c s = ground (
    arith,
    s.not_connected,
    s.no_thread,
    s.callback,
    s.no_ping,
    s.no_late,
    clear-IsWorking c.read_write_breaker s.working,
  )

  pub Reach-IsAwake : {m n : Moment C} → IsAwake m → Reach m n → IsAwake n
  Reach-IsAwake a here = a
  Reach-IsAwake a (later r s) = Step-IsAwake s (Reach-IsAwake a r)

  -- The two parts of a call are the call.
  enqueue-notify :
      (w : Bool) (kind payload : Bytes) (content : Option Bytes) (func : Option C) (c : Client C)
      → is_connected c.status ≡ true
      → send w kind payload content func c ≡ (true, notify w (enqueue kind payload content func c))
  unfolding send enqueue
  enqueue-notify w kind payload content func c h = rw h refl

  enqueue_no_reply-notify :
      (w : Bool) (kind payload : Bytes) (c : Client C)
      → is_connected c.status ≡ true
      → send_no_reply w kind payload c ≡ (true, notify w (enqueue_no_reply kind payload c))
  unfolding send_no_reply enqueue_no_reply
  enqueue_no_reply-notify w kind payload c h = rw h refl

  enqueue_disconnect-notify :
      (w : Bool) (c : Client C)
      → is_connected c.status ≡ true
      → send_disconnect w c ≡ notify w (enqueue_disconnect c)
  unfolding send_disconnect enqueue_disconnect
  enqueue_disconnect-notify w c h = rw h refl

  -- No wake-up is lost. From MakeSureConnected on, let the parts of the user's calls, of the timers'
  -- callbacks and of the client's thread come in any order that the lock allows. Whenever the thread is
  -- in the select of its loop, and no call or callback stands between its note and its Break, and there
  -- is something to do (a code for disconnecting, a fired alarm for the next ping or for a late answer
  -- to one, or a message while the socket is not watched for writing), then the pipe that the select
  -- watches holds its one byte, so that the thread does not sleep.
  pub Reach-IsHeard :
      (c : Client C) (m : Moment C) (w : Bool)
      → CanStart c
      → Reach (begin c) m
      → m.place ≡ selecting w
      → m.holder ≡ nobody
      → m.firing ≡ false
      → has_work w m.client ≡ true
      → m.client.read_write_breaker.held ≡ 1
  Reach-IsHeard c m w s r p n f h =
      let a = Reach-IsAwake (begin-IsAwake c s) r in
      ground (arith, p, n, f, h, a.code, a.late, a.ping, a.message, a.working.in_step)
