-- ===== src/Socket/Polling/Epoll.antt =====
-- socket/socket_epoll.cpp: the watched events of SocketEpoll.
use go_socket_client.Prelude.{ℕ, Bool, true, Option, none, some, List, [], if◌then◌else◌}
use go_socket_client.Socket.Polling.{no_flags, Event, has_fd, change, push_back}

-- SocketEpoll::ReadEvent
unfoldable pub read_event : ℕ → Bool → List Event → List Event
read_event fd active es =
    if has_fd fd es
    then change (λ m. record m { input = active }) fd es
    else push_back (record { fd = fd; mask = record no_flags { input = active } }) es

-- SocketEpoll::WriteEvent
unfoldable pub write_event : ℕ → Bool → List Event → List Event
write_event fd active es =
    if has_fd fd es
    then change (λ m. record m { output = active }) fd es
    else push_back (record { fd = fd; mask = record no_flags { output = active } }) es

-- SocketEpoll::ErrorEvent
unfoldable pub error_event : ℕ → Bool → List Event → List Event
error_event fd active es =
    if has_fd fd es
    then change (λ m. record m { err = active }) fd es
    else push_back (record { fd = fd; mask = record no_flags { err = active } }) es

-- `_pollEvents` after SocketEpoll::Poll; what epoll_wait returned is `none` below 0, and otherwise
-- its first `ret` events.
unfoldable pub poll_events : Option (List Event) → List Event
poll_events none = []
poll_events (some es) = es

-- The constructor of SocketEpoll
unfoldable pub new_events : ℕ → List Event
new_events breaker_fd = read_event breaker_fd true []
