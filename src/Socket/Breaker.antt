-- ===== src/Socket/Breaker.antt =====
-- socket/socket_breaker.cpp: a pipe that wakes a select. `held` is the number of bytes in the pipe; the
-- argument of a Break says whether the operating system takes the byte. The pipe does not block, so
-- that a read of an empty one fails. Close leaves the numbers of the closed descriptors in `_pipes`; the
-- model takes it that the operating system gives them to nothing else before the ReCreate, so that writes
-- and reads of them fail: `usable` is whether the pipe is open.
use go_socket_client.Prelude.{
  ℕ, ◌+◌, ◌-◌, ◌≡◌, Bool, true, false, not, ◌&&◌, ◌||◌, List, [], ◌∷◌, arith, ◌==◌, if◌then◌else◌,
}

pub record SocketBreaker : Type 0 where
  pub held : ℕ
  pub broken : Bool
  pub usable : Bool

-- SocketBreaker::ReCreate; the argument says whether pipe and the calls of fcntl succeed. If not, there is
-- no open pipe. It does not touch `_broken`.
unfoldable pub re_create : Bool → SocketBreaker → SocketBreaker
re_create made b = record b { held = 0; usable = made }

-- SocketBreaker::Close
unfoldable pub close : SocketBreaker → SocketBreaker
close b = record b { held = 0; usable = false }

-- SocketBreaker::Break
unfoldable pub break : Bool → SocketBreaker → Bool × SocketBreaker
break writes b =
    if b.broken
    then (true, b)
    else (if writes && b.usable
        then (true, record b { held = b.held + 1; broken = true })
        else (false, b))

-- SocketBreaker::Clear, which reads at most 128 bytes
unfoldable pub clear : SocketBreaker → Bool × SocketBreaker
clear b =
    if not b.usable || (b.held == 0)
    then (false, b)
    else (true, record b { held = b.held - 128; broken = false })

-- What a thread does to a breaker.
pub data BreakerCall : Type 0 where
  call_break : Bool → BreakerCall
  call_clear : BreakerCall

abbrev pub after : BreakerCall → SocketBreaker → SocketBreaker
after (call_break writes) b = (break writes b).1
after call_clear b = (clear b).1

abbrev pub after_all : List BreakerCall → SocketBreaker → SocketBreaker
after_all [] b = b
after_all (c ∷ cs) b = after_all cs (after c b)

-- The pipe holds one byte if a signal is noted and none if not.
abbrev pub IsInStep : SocketBreaker → Type 0
IsInStep b = b.held ≡ (if b.broken then 1 else 0)

after-IsInStep : (c : BreakerCall) (b : SocketBreaker) → IsInStep b → IsInStep (after c b)
unfolding break clear
after-IsInStep (call_break writes) b h = ground (arith, h)
after-IsInStep call_clear b h = ground (arith, h)

-- From a breaker whose pipe holds one byte if a signal is noted and none if not, any sequence of
-- Break and Clear calls, whatever the writes come to, leads to such a breaker again: signals never
-- pile up in the pipe, and none is noted without a byte to wake the select.
pub after_all-IsInStep :
    (cs : List BreakerCall) (b : SocketBreaker) → IsInStep b → IsInStep (after_all cs b)
after_all-IsInStep [] b h = h
after_all-IsInStep (c ∷ cs) b h = after_all-IsInStep cs (after c b) (after-IsInStep c b h)
