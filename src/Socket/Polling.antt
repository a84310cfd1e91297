-- ===== src/Socket/Polling.antt =====
-- socket/socket_poll.cpp and socket/socket_epoll.cpp: which descriptors are watched, and what was
-- reported of them. A mask of events is a record of its bits. poll and epoll_wait are not of this
-- program: what they answer is an argument.
pub mod Poll
pub mod Epoll
pub mod Kqueue
pub mod Watched
pub mod Once
pub mod Fired
pub mod Agree
use go_socket_client.Prelude.{[], ℕ, Bool, false, ◌||◌, List, ◌∷◌, ◌==◌, if◌then◌else◌}

-- POLLIN, POLLOUT, POLLERR, POLLHUP and POLLNVAL, or EPOLLIN, EPOLLOUT, EPOLLERR and EPOLLHUP.
pub record Flags : Type 0 where
  pub input : Bool
  pub output : Bool
  pub err : Bool
  pub hup : Bool
  pub nval : Bool

abbrev pub no_flags : Flags
no_flags = record { input = false; output = false; err = false; hup = false; nval = false }

-- `revents == 0`, negated
unfoldable pub any_flag : Flags → Bool
any_flag f = f.input || f.output || f.err || f.hup || f.nval

-- pollfd. An epoll_event is one, too: its `events` are `mask`, and its `data.fd` is `fd`.
pub record Event : Type 0 where
  pub fd : ℕ
  pub mask : Flags

unfoldable pub has_fd : ℕ → List Event → Bool
has_fd fd [] = false
has_fd fd (e ∷ es) = e.fd == fd || has_fd fd es

-- `ret->events` of the event that find_if finds, changed by `f`
unfoldable pub change : (Flags → Flags) → ℕ → List Event → List Event
change f fd [] = []
change f fd (e ∷ es) =
    let rest = change f fd es in if e.fd == fd then record e { mask = f e.mask } ∷ es else e ∷ rest

-- `_events.push_back`
unfoldable pub push_back : Event → List Event → List Event
push_back new [] = new ∷ []
push_back new (e ∷ es) = e ∷ push_back new es

-- `_events.erase(_events.begin()+1, _events.end())`
unfoldable pub clear_event : List Event → List Event
clear_event [] = []
clear_event (e ∷ es) = e ∷ []

-- ReadFdIsSet, WriteFdIsSet and ExceptionFdIsSet of both classes, over the events that were reported.
-- An epoll event has no bit `nval`.
unfoldable pub read_fd_is_set : ℕ → List Event → Bool
read_fd_is_set fd [] = false
read_fd_is_set fd (e ∷ es) =
    let rest = read_fd_is_set fd es in if e.fd == fd then e.mask.input || e.mask.hup else rest

unfoldable pub write_fd_is_set : ℕ → List Event → Bool
write_fd_is_set fd [] = false
write_fd_is_set fd (e ∷ es) =
    let rest = write_fd_is_set fd es in if e.fd == fd then e.mask.output else rest

unfoldable pub exception_fd_is_set : ℕ → List Event → Bool
exception_fd_is_set fd [] = false
exception_fd_is_set fd (e ∷ es) =
    let rest = exception_fd_is_set fd es in if e.fd == fd then e.mask.err || e.mask.nval else rest
