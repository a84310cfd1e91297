-- ===== src/Socket/Polling/Watched.antt =====
-- socket/socket_poll.cpp and socket/socket_epoll.cpp: the mask under which a descriptor is watched.
use go_socket_client.Prelude.{
  ℕ, ◌≡◌, refl, ap, ◌∙◌, inl, inr, Bool, true, false, Option, none, some, List, [], ◌∷◌, arith,
  ◌==◌, if◌then◌else◌, Bool-cases,
}
use go_socket_client.Socket.Polling.{Flags, no_flags, Event, has_fd, change, push_back}
use go_socket_client.Socket.Polling.Poll
use go_socket_client.Socket.Polling.Epoll

-- The mask of the first event for the descriptor.
unfoldable pub mask_of : ℕ → List Event → Option Flags
mask_of fd [] = none
mask_of fd (e ∷ es) = let rest = mask_of fd es in if e.fd == fd then some e.mask else rest

abbrev pub or_none : Option Flags → Flags
or_none none = no_flags
or_none (some m) = m

-- No descriptor stands twice.
abbrev pub AllOnce : List Event → Type 0
AllOnce [] = Unit
AllOnce (e ∷ es) = (mask_of e.fd es ≡ none) × AllOnce es

pub mask_of-absent : (fd : ℕ) (es : List Event) → has_fd fd es ≡ false → mask_of fd es ≡ none
unfolding mask_of has_fd
mask_of-absent fd [] h = refl
mask_of-absent fd (e ∷ es) h = ground (arith, h, mask_of-absent fd es)

mask_of-change :
    (f : Flags → Flags) (fd other : ℕ) (es : List Event)
    → has_fd fd es ≡ true
    → mask_of other (change f fd es)
      ≡ (if fd == other then some (f (or_none (mask_of fd es))) else mask_of other es)
unfolding mask_of change has_fd
mask_of-change f fd other [] h = ground (arith, h)
mask_of-change f fd other (e ∷ es) h = ground (arith, h, mask_of-change f fd other es)

pub mask_of-push_back :
    (new : Event) (other : ℕ) (es : List Event)
    → mask_of new.fd es ≡ none
    → mask_of other (push_back new es)
      ≡ (if new.fd == other then some new.mask else mask_of other es)
unfolding mask_of push_back
mask_of-push_back new other [] h = refl
mask_of-push_back new other (e ∷ es) h = ground (arith, h, mask_of-push_back new other es)

-- A call that sets bits changes one mask, or puts one in.
abbrev pub Sets : (Flags → Flags) → ℕ → List Event → List Event → Type 0
Sets f fd es fs =
    (other : ℕ)
    → mask_of other fs
      ≡ (if fd == other then some (f (or_none (mask_of fd es))) else mask_of other es)

if_twice {ℓ} :
    {A : Type ℓ} (b : Bool) (x y z : A)
    → (if b then x else (if b then y else z)) ≡ (if b then x else z)
if_twice true x y z = refl
if_twice false x y z = refl

if-Sets :
    (f : Flags → Flags) (fd : ℕ) (m : Flags) (es : List Event)
    → f no_flags ≡ m
    → Sets f fd es
        (if has_fd fd es then change f fd es else push_back (record { fd = fd; mask = m }) es)
if-Sets f fd m es h other = elim (Bool-cases (has_fd fd es)) [
  | inl e ↦ rw e (mask_of-change f fd other es e)
  | inr e ↦
      let k = mask_of-absent fd es e in
      rw (e, mask_of-push_back (record { fd = fd; mask = m }) other es k) (rw (k, h) refl)
]

-- The same through __AddEvent, which looks for the descriptor again.
if_twice-Sets :
    (f : Flags → Flags) (fd : ℕ) (m : Flags) (es : List Event)
    → f no_flags ≡ m
    → Sets f fd es (
        if has_fd fd es
        then change f fd es
        else (if has_fd fd es
            then change (λ old. m) fd es
            else push_back (record { fd = fd; mask = m }) es))
if_twice-Sets f fd m es h other =
    ap (mask_of other) (if_twice (has_fd fd es) _ _ _) ∙ if-Sets f fd m es h other

-- What a user of either class does before the poll.
pub data Watch : Type 0 where
  watch_read watch_write watch_error : ℕ → Bool → Watch

unfoldable pub poll_watch : Watch → List Event → List Event
poll_watch (watch_read fd active) es = Poll.read_event fd active es
poll_watch (watch_write fd active) es = Poll.write_event fd active es
poll_watch (watch_error fd active) es = Poll.error_event fd active es

unfoldable pub epoll_watch : Watch → List Event → List Event
epoll_watch (watch_read fd active) es = Epoll.read_event fd active es
epoll_watch (watch_write fd active) es = Epoll.write_event fd active es
epoll_watch (watch_error fd active) es = Epoll.error_event fd active es

unfoldable pub poll_watches : List Watch → List Event → List Event
poll_watches [] es = es
poll_watches (w ∷ ws) es = poll_watches ws (poll_watch w es)

unfoldable pub epoll_watches : List Watch → List Event → List Event
epoll_watches [] es = es
epoll_watches (w ∷ ws) es = epoll_watches ws (epoll_watch w es)

-- What both classes make of a mask, but for the bit `nval`.
abbrev pub fd_of : Watch → ℕ
fd_of (watch_read fd active) = fd
fd_of (watch_write fd active) = fd
fd_of (watch_error fd active) = fd

abbrev pub poll_set : Watch → Flags → Flags
poll_set (watch_read fd active) m = record m { input = active }
poll_set (watch_write fd active) m = record m { output = active }
poll_set (watch_error fd active) m = record m { err = active; nval = active }

abbrev pub epoll_set : Watch → Flags → Flags
epoll_set (watch_read fd active) m = record m { input = active }
epoll_set (watch_write fd active) m = record m { output = active }
epoll_set (watch_error fd active) m = record m { err = active }

pub poll_watch-Sets :
    (w : Watch) (es : List Event) → Sets (poll_set w) (fd_of w) es (poll_watch w es)
unfolding poll_watch Poll.read_event Poll.write_event Poll.error_event Poll.add_event
poll_watch-Sets (watch_read fd active) es =
    if_twice-Sets (poll_set (watch_read fd active)) fd _ es refl
poll_watch-Sets (watch_write fd active) es =
    if_twice-Sets (poll_set (watch_write fd active)) fd _ es refl
poll_watch-Sets (watch_error fd active) es =
    if_twice-Sets (poll_set (watch_error fd active)) fd _ es refl

pub epoll_watch-Sets :
    (w : Watch) (es : List Event) → Sets (epoll_set w) (fd_of w) es (epoll_watch w es)
unfolding epoll_watch Epoll.read_event Epoll.write_event Epoll.error_event
epoll_watch-Sets (watch_read fd active) es = if-Sets (epoll_set (watch_read fd active)) fd _ es refl
epoll_watch-Sets (watch_write fd active) es =
    if-Sets (epoll_set (watch_write fd active)) fd _ es refl
epoll_watch-Sets (watch_error fd active) es =
    if-Sets (epoll_set (watch_error fd active)) fd _ es refl
