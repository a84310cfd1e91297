-- ===== src/Client/Machine/Sound.antt =====
-- tcp_client.cpp: what holds of the client between any two events.
pub mod Calls
pub mod Requests
pub mod Run
use go_socket_client.Prelude.{
  ℕ, ◌≤◌, ◌<◌, ◌≡◌, refl, Bool, true, false, not, ◌&&◌, arith, if◌then◌else◌, All,
}
use go_socket_client.Prelude.StdMap.{keys, IsSorted}
use go_socket_client.Packet.Gzip.{Bytes}
use go_socket_client.Socket.Breaker.{SocketBreaker, break, clear, close}
use go_socket_client.Client.{Client, Listeners, new_client}
use go_socket_client.Client.Requests.{uint16_max}

-- The pipe holds one byte if a signal is noted and none if not, and a closed breaker notes none.
pub record IsReady (b : SocketBreaker) : Type 0 where
  pub in_step : b.held ≡ (if b.broken then 1 else 0)
  pub closed : (not b.usable && b.broken) ≡ false

pub break-IsReady : (w : Bool) (b : SocketBreaker) → IsReady b → IsReady (break w b).1
unfolding break
break-IsReady w b h = ground arith

pub break-usable : (w : Bool) (b : SocketBreaker) → (break w b).1.usable ≡ b.usable
unfolding break
break-usable w b = ground arith

pub break-broken : (w : Bool) (b : SocketBreaker) → (break w b).0 ≡ (break w b).1.broken
unfolding break
break-broken w b = ground arith

pub clear-IsReady : (b : SocketBreaker) → IsReady b → IsReady (clear b).1
unfolding clear
clear-IsReady b h = ground arith

pub clear-usable : (b : SocketBreaker) → (clear b).1.usable ≡ b.usable
unfolding clear
clear-usable b = ground arith

pub close-usable : (b : SocketBreaker) → (close b).usable ≡ false
unfolding close
close-usable b = refl

-- A breaker is closed only after a Break that failed.
pub close-IsReady : (b : SocketBreaker) → b.broken ≡ false → IsReady (close b)
unfolding close
close-IsReady b h = ground arith

-- An id of a request.
abbrev pub IsId : ℕ → Type 0
IsId i = (1 ≤ i) × (i < uint16_max)

pub record IsSound {ℓ} {C : Type ℓ} (c : Client C) : Type ℓ where
  pub callbacks_sorted : IsSorted c.callback_map
  pub callback_ids : All IsId (keys c.callback_map)
  pub alarms_sorted : IsSorted c.timeout_alarms
  pub current_id : IsId c.current_msg_id
  pub reading : IsReady c.read_write_breaker
  pub connecting : IsReady c.connect_breaker
  -- While the thread runs, a breaker that is to be made again is a closed one.
  pub reading_closed : (c.has_thread && c.should_new_breaker && c.read_write_breaker.usable) ≡ false
  pub connecting_closed :
      (c.has_thread && c.should_new_conn_breaker && c.connect_breaker.usable) ≡ false

module _ {ℓ} {C : Type ℓ} where
  pub new_client-IsSound :
      (host backup_ip : Bytes) (listeners : Listeners)
      → IsSound (new_client {C = C} host backup_ip listeners)
  new_client-IsSound host backup_ip listeners = ground arith

  pub if-IsSound :
      (b : Bool) (c d : Client C) → IsSound c → IsSound d → IsSound (if b then c else d)
  if-IsSound true c d h k = h
  if-IsSound false c d h k = k
