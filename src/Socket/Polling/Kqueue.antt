-- ===== src/Socket/Polling/Kqueue.antt =====
-- socket/socket_kqueue.cpp: the watched events of SocketKqueue, one for each descriptor and filter.
pub mod Asks
pub mod Closed
use go_socket_client.Prelude.{
  ℕ, Bool, true, false, not, ◌&&◌, ◌||◌, Option, none, some, List, [], ◌∷◌, ◌==◌, if◌then◌else◌,
}

-- EVFILT_READ and EVFILT_WRITE
pub data Filter : Type 0 where
  read_filter write_filter : Filter

unfoldable pub same_filter : Filter → Filter → Bool
same_filter read_filter read_filter = true
same_filter read_filter write_filter = false
same_filter write_filter read_filter = false
same_filter write_filter write_filter = true

-- The struct kevent of a change: `adds` says whether its flags are EV_ADD with EV_ENABLE, or EV_DELETE.
pub record Change : Type 0 where
  pub fd : ℕ
  pub filter : Filter
  pub adds : Bool

-- The struct kevent of an answer; `error` is EV_ERROR, `eof` is EV_EOF.
pub record KqueueEvent : Type 0 where
  pub fd : ℕ
  pub filter : Filter
  pub error : Bool
  pub eof : Bool

unfoldable pub is_for : ℕ → Filter → Change → Bool
is_for fd f e = e.fd == fd && same_filter f e.filter

-- ReadEvent and WriteEvent, with their filters
unfoldable pub set_event : Filter → ℕ → Bool → List Change → List Change
set_event f fd active [] = if active then record { fd = fd; filter = f; adds = true } ∷ [] else []
set_event f fd active (e ∷ es) =
    let rest = set_event f fd active es in
    if is_for fd f e then record { fd = fd; filter = f; adds = active } ∷ es else e ∷ rest

-- SocketKqueue::ErrorEvent
unfoldable pub error_event : ℕ → Bool → List Change → List Change
error_event fd active es = es

-- The constructor of SocketKqueue
unfoldable pub new_events : ℕ → List Change
new_events breaker_fd = set_event read_filter breaker_fd true []

-- SocketKqueue::ClearEvent
unfoldable pub clear_event : List Change → List Change
clear_event [] = []
clear_event (e ∷ es) = e ∷ []

-- `_pollEvents` after SocketKqueue::Poll; what kevent returned is `none` below 0.
unfoldable pub poll_events : Option (List KqueueEvent) → List KqueueEvent
poll_events none = []
poll_events (some es) = es

-- ReadFdIsSet and WriteFdIsSet: any event of the descriptor that has the filter and no flag
unfoldable pub fd_is_set : Filter → ℕ → List KqueueEvent → Bool
fd_is_set f fd [] = false
fd_is_set f fd (e ∷ es) =
    (e.fd == fd && not e.error && not e.eof && same_filter f e.filter) || fd_is_set f fd es

-- SocketKqueue::ExceptionFdIsSet: the flags of the descriptor's first event
unfoldable pub exception_fd_is_set : ℕ → List KqueueEvent → Bool
exception_fd_is_set fd [] = false
exception_fd_is_set fd (e ∷ es) =
    let rest = exception_fd_is_set fd es in if e.fd == fd then e.error || e.eof else rest
