-- ===== src/Socket/Polling/Kqueue/Asks.antt =====
-- socket/socket_kqueue.cpp and socket/socket_epoll.cpp: both back ends ask for the same.
use go_socket_client.Prelude.{
  ℕ, ◌≡◌, refl, sym, ap, ◌∙◌, Bool, true, false, ◌&&◌, ◌||◌, Option, some, List, [], ◌∷◌, arith,
  ◌==◌, if◌then◌else◌, All, inl, inr, Bool-cases, ==_iff,
}
use go_socket_client.Socket.Polling.{Flags, Event, has_fd, push_back}
use go_socket_client.Socket.Polling.Epoll
use go_socket_client.Socket.Polling.Watched.{
  mask_of, or_none, Watch, watch_read, watch_write, watch_error, epoll_watch, epoll_watches,
  epoll_set, epoll_watch-Sets,
}
use go_socket_client.Socket.Polling.Kqueue.{
  Filter, read_filter, write_filter, same_filter, Change, KqueueEvent, is_for, set_event,
  error_event, new_events,
}

-- ReadFdSet, WriteFdSet and ExceptionFdSet of SocketSelect, which always watch.
pub data Set : Type 0 where
  read_set write_set exception_set : ℕ → Set

unfoldable pub kqueue_sets : List Set → List Change → List Change
kqueue_sets [] es = es
kqueue_sets (read_set fd ∷ ws) es = kqueue_sets ws (set_event read_filter fd true es)
kqueue_sets (write_set fd ∷ ws) es = kqueue_sets ws (set_event write_filter fd true es)
kqueue_sets (exception_set fd ∷ ws) es = kqueue_sets ws (error_event fd true es)

abbrev pub as_watch : Set → Watch
as_watch (read_set fd) = watch_read fd true
as_watch (write_set fd) = watch_write fd true
as_watch (exception_set fd) = watch_error fd true

abbrev pub as_watches : List Set → List Watch
as_watches [] = []
as_watches (w ∷ ws) = as_watch w ∷ as_watches ws

-- The filter is watched for the descriptor.
unfoldable pub watches : Filter → ℕ → List Change → Bool
watches f fd [] = false
watches f fd (e ∷ es) = (is_for fd f e && e.adds) || watches f fd es

abbrev pub is_ready : Filter → Flags → Bool
is_ready read_filter m = m.input
is_ready write_filter m = m.output

unfoldable pub is_any : Filter → ℕ → List KqueueEvent → Bool
is_any f fd [] = false
is_any f fd (e ∷ es) = (e.fd == fd && same_filter f e.filter) || is_any f fd es

-- kevent(2), when every change is one that can be made: an event for each watched filter that is ready,
-- in any order, with EV_EOF if the filter's end has come: for EVFILT_READ when the peer has shut down its
-- direction, for EVFILT_WRITE when the reader has disconnected.
pub record IsKqueueAnswer (ready : ℕ → Flags) (at_end : Filter → ℕ → Bool) (es : List Change)
    (answer : List KqueueEvent) : Type 0 where
  pub reports :
      (f : Filter) (fd : ℕ) → is_any f fd answer ≡ (watches f fd es && is_ready f (ready fd))
  pub flags : All (λ e. (e.error ≡ false) × (e.eof ≡ at_end e.filter e.fd)) answer

watches-set_event :
    (f g : Filter) (fd other : ℕ) (es : List Change)
    → watches g other (set_event f fd true es)
      ≡ ((fd == other && same_filter g f) || watches g other es)
unfolding watches set_event is_for same_filter
watches-set_event f g fd other [] = ground arith
watches-set_event f g fd other (e ∷ es) = ground (arith, watches-set_event f g fd other es)

-- The same is asked of kevent as of epoll_wait.
abbrev pub Asks : List Change → List Event → Type 0
Asks es ps = (f : Filter) (fd : ℕ) → watches f fd es ≡ is_ready f (or_none (mask_of fd ps))

set_bit :
    (s : Bool) (k : Flags → Flags) (f : Filter) (fd other : ℕ) (old : Bool)
    (mask : ℕ → Option Flags)
    → old ≡ is_ready f (or_none (mask other))
    → ((m : Flags) → is_ready f (k m) ≡ (s || is_ready f m))
    → ((fd == other && s) || old)
      ≡ is_ready f (or_none (if fd == other then some (k (or_none (mask fd))) else mask other))
set_bit s k f fd other old mask h g = elim (Bool-cases (fd == other)) [
  | inl e ↦
      let same = (==_iff fd other).0 e in
      rw (e, g (or_none (mask fd)))
        (ap (λ b. s || b) (h ∙ ap (λ n. is_ready f (or_none (mask n))) (sym same)))
  | inr e ↦ rw e h
]

drop_false : (b c : Bool) → c ≡ ((b && false) || c)
drop_false b c = ground arith

read_bit :
    (f : Filter) (m : Flags)
    → is_ready f (record m { input = true }) ≡ (same_filter f read_filter || is_ready f m)
unfolding same_filter
read_bit read_filter m = refl
read_bit write_filter m = refl

write_bit :
    (f : Filter) (m : Flags)
    → is_ready f (record m { output = true }) ≡ (same_filter f write_filter || is_ready f m)
unfolding same_filter
write_bit read_filter m = refl
write_bit write_filter m = refl

error_bit :
    (f : Filter) (m : Flags) → is_ready f (record m { err = true }) ≡ (false || is_ready f m)
error_bit read_filter m = refl
error_bit write_filter m = refl

set-Asks :
    (w : Set) (es : List Change) (ps : List Event)
    → Asks es ps
    → Asks (kqueue_sets (w ∷ []) es) (epoll_watch (as_watch w) ps)
unfolding kqueue_sets error_event
set-Asks (read_set fd) es ps h f other =
    watches-set_event read_filter f fd other es
    ∙ set_bit (same_filter f read_filter) (epoll_set (watch_read fd true)) f fd other _
        (λ n. mask_of n ps) (h f other) (read_bit f)
    ∙ ap (λ m. is_ready f (or_none m)) (sym (epoll_watch-Sets (watch_read fd true) ps other))
set-Asks (write_set fd) es ps h f other =
    watches-set_event write_filter f fd other es
    ∙ set_bit (same_filter f write_filter) (epoll_set (watch_write fd true)) f fd other _
        (λ n. mask_of n ps) (h f other) (write_bit f)
    ∙ ap (λ m. is_ready f (or_none m)) (sym (epoll_watch-Sets (watch_write fd true) ps other))
set-Asks (exception_set fd) es ps h f other =
    drop_false (fd == other) (watches f other es)
    ∙ set_bit false (epoll_set (watch_error fd true)) f fd other _ (λ n. mask_of n ps) (h f other)
        (error_bit f)
    ∙ ap (λ m. is_ready f (or_none m)) (sym (epoll_watch-Sets (watch_error fd true) ps other))

pub sets-Asks :
    (ws : List Set) (es : List Change) (ps : List Event)
    → Asks es ps
    → Asks (kqueue_sets ws es) (epoll_watches (as_watches ws) ps)
unfolding kqueue_sets epoll_watches
sets-Asks [] es ps h = h
sets-Asks (read_set fd ∷ ws) es ps h = sets-Asks ws _ _ (set-Asks (read_set fd) es ps h)
sets-Asks (write_set fd ∷ ws) es ps h = sets-Asks ws _ _ (set-Asks (write_set fd) es ps h)
sets-Asks (exception_set fd ∷ ws) es ps h = sets-Asks ws _ _ (set-Asks (exception_set fd) es ps h)

pub new_events-Asks : (breaker_fd : ℕ) → Asks (new_events breaker_fd) (Epoll.new_events breaker_fd)
unfolding new_events set_event watches is_for same_filter Epoll.new_events Epoll.read_event has_fd
    push_back mask_of
new_events-Asks breaker_fd read_filter fd = ground arith
new_events-Asks breaker_fd write_filter fd = ground arith
