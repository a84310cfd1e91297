-- ===== src/Client/Wakeup.antt =====
-- tcp_client.cpp and common/alarm.cpp, between the lines: what wakes the select of __RunReadWrite. The
-- calls that signal are taken apart at the places where another thread can come between: Send and its
-- kin put the message in the queue and then break, DisconnectAsync notes the code and then breaks, an
-- alarm notes that it has signals and then breaks. The client's thread polls, clears the breaker, and only
-- then looks at the code, the alarms and the queue. A step is one such part of any of them.
pub mod Parts
pub mod Quiet
pub mod Calm
pub mod Awake
pub mod Steps
pub mod Others
pub mod Run
pub mod NoLoss
pub mod Grows
pub mod Turns
pub mod Quits
use go_socket_client.Prelude.{[], ℕ, ◌≡◌, Bool, true, false, Option, List, ◌∷◌, leb, length}
use go_socket_client.Packet.Gzip.{Bytes}
use go_socket_client.Packet.Message.{Message}
use go_socket_client.Timer.Alarm.{fire, is_alarm}
use go_socket_client.Client.{
  Client, DisconnectCode, not_connect, timeout, connected, ping_timeout, is_connected, is_dis_none,
  respond_to,
}
use go_socket_client.Client.Calls.{
  set_connect_status, make_sure_connected, break_read_write, break_connect, answer, drop_timeout,
}
use go_socket_client.Client.Requests.{notify}
use go_socket_client.Client.Connecting.{refresh_count}
use go_socket_client.Client.Loop.{
  Turn, prepare, written, dispatch, start_ping_late, cancel_ping_late,
}
pub use go_socket_client.Client.Wakeup.Parts.{
  Place, connecting, starting, prepared, selecting, woken, cleared, looking, writing, reading,
  pinging, left, Holder, nobody, telling, breaking_read_write, breaking_connect, Moment, at,
}
unfoldable pub use go_socket_client.Client.Wakeup.Parts.{
  enqueue, enqueue_no_reply, enqueue_disconnect, fire_ping, fire_ping_late,
}
unfoldable pub use go_socket_client.Client.Calls.{clear_breaker}

module _ {ℓ} {C : Type ℓ} where
  -- One part of what a thread does. The pipe takes the one byte that a breaker ever holds.
  pub data Step (m : Moment C) : Moment C → Type ℓ where
    -- the client's thread while it connects
    counts :
        (tick : ℕ) → m.place ≡ connecting → Step m (at connecting (refresh_count tick m.client) m)
    refuses :
        m.place ≡ connecting
        → Step m (at connecting (record m.client { should_reconnect = false }) m)
    opens : m.place ≡ connecting → Step m (at connecting (record m.client { has_socket = true }) m)
    fails : m.place ≡ connecting → Step m (at left m.client m)
    connects : m.place ≡ connecting → Step m (at starting (set_connect_status connected m.client) m)
    -- the client's thread in the loop
    prepares :
        (start_tick : ℕ) (t : Turn C)
        → m.place ≡ starting
        → Step m (at prepared (prepare start_tick t m.client) m)
    looks :
        m.place ≡ prepared
        → m.holder ≡ nobody
        → Step m (at (selecting (leb 1 (length m.client.message_queue))) m.client m)
    wakes : (w : Bool) → m.place ≡ selecting w → Step m (at (woken w) m.client m)
    clears : (w : Bool) → m.place ≡ woken w → Step m (at (cleared w) (clear_breaker m.client) m)
    errs : (w : Bool) → m.place ≡ cleared w → Step m (at left m.client m)
    goes_on :
        (w : Bool)
        → m.place ≡ cleared w
        → is_dis_none m.client.dis_code ≡ true
        → Step m (at (looking w) m.client m)
    gives_up :
        (w : Bool)
        → m.place ≡ looking w
        → is_alarm m.client.ping_timeout_alarm ≡ true
        → Step m (at left (record m.client { dis_code = ping_timeout }) m)
    stays :
        (w : Bool)
        → m.place ≡ looking w
        → is_alarm m.client.ping_timeout_alarm ≡ false
        → Step m (at (writing w) m.client m)
    skips_write : (w : Bool) → m.place ≡ writing w → Step m (at reading m.client m)
    writes :
        (now : ℕ) (x : Message) (rest : List Message)
        → m.place ≡ writing true
        → m.client.message_queue ≡ x ∷ rest
        → Step m (at reading (written now x rest m.client) m)
    write_fails : m.place ≡ writing true → Step m (at left m.client m)
    skips_read : m.place ≡ reading → Step m (at pinging m.client m)
    reads :
        (t : Turn C) (x : Message)
        → m.place ≡ reading
        → t.breaker_writes ≡ true
        → Step m (at pinging (dispatch t x m.client) m)
    read_fails : m.place ≡ reading → Step m (at left m.client m)
    skips_ping :
        m.place ≡ pinging → is_alarm m.client.ping_alarm ≡ false → Step m (at starting m.client m)
    pings :
        (now : ℕ)
        → m.place ≡ pinging
        → is_alarm m.client.ping_alarm ≡ true
        → Step m (at starting (start_ping_late now (cancel_ping_late m.client)) m)
    ping_fails : m.place ≡ pinging → Step m (at left m.client m)
    -- the user's calls, from any thread
    ensures : Step m (record m { client = make_sure_connected m.client })
    refused :
        (func : Option C)
        → is_connected m.client.status ≡ false
        → Step m (record m { client = respond_to func not_connect [] m.client })
    sends :
        (kind payload : Bytes) (content : Option Bytes) (func : Option C)
        → m.holder ≡ nobody
        → is_connected m.client.status ≡ true
        → Step m
            (record m { client = enqueue kind payload content func m.client; holder = telling })
    sends_no_reply :
        (kind payload : Bytes)
        → m.holder ≡ nobody
        → is_connected m.client.status ≡ true
        → Step m (record m { client = enqueue_no_reply kind payload m.client; holder = telling })
    sends_disconnect :
        m.holder ≡ nobody
        → is_connected m.client.status ≡ true
        → Step m (record m { client = enqueue_disconnect m.client; holder = telling })
    tells :
        m.holder ≡ telling → Step m (record m { client = notify true m.client; holder = nobody })
    disconnects :
        (code : DisconnectCode) (again : Bool)
        → m.holder ≡ nobody
        → m.client.has_thread ≡ true
        → Step m (record m {
          client = record m.client { dis_code = code; should_reconnect = again };
          holder = breaking_read_write;
        })
    breaks_read_write :
        m.holder ≡ breaking_read_write
        → Step m (record m { client = break_read_write true m.client; holder = breaking_connect })
    breaks_connect :
        (takes : Bool)
        → m.holder ≡ breaking_connect
        → Step m (record m { client = break_connect takes m.client; holder = nobody })
    -- the thread of the timers
    ping_fires :
        m.firing ≡ false
        → (fire m.client.ping_alarm).0 ≡ true
        → Step m (record m { client = fire_ping m.client; firing = true })
    ping_late_fires :
        m.firing ≡ false
        → (fire m.client.ping_timeout_alarm).0 ≡ true
        → Step m (record m { client = fire_ping_late m.client; firing = true })
    signals : m.firing ≡ true → Step m (record m { client = notify true m.client; firing = false })
    answers_late :
        (i : ℕ) → Step m (record m { client = answer i timeout [] (drop_timeout i m.client) })
    gives_up_late : Step m (record m { client = record m.client { timeout_disconnect = true } })

  pub data Reach (m : Moment C) : Moment C → Type ℓ where
    here : Reach m m
    later : {x y : Moment C} → Reach m x → Step x y → Reach m y

  -- MakeSureConnected has just started the thread.
  abbrev pub begin : Client C → Moment C
  begin c = record {
    client = make_sure_connected c;
    place = connecting;
    holder = nobody;
    firing = false;
  }
