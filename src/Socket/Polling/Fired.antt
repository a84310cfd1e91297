-- ===== src/Socket/Polling/Fired.antt =====
-- socket/socket_poll.cpp: what SocketPoll keeps of an answer. The operating system is what its manual
-- says: `ready` holds what is the case of each descriptor.
use go_socket_client.Prelude.{
  ℕ, ◌+◌, ◌≡◌, refl, sym, ap, subst, ◌∙◌, inl, inr, Bool, true, false, ◌&&◌, Option, none, some,
  List, [], ◌∷◌, arith, ◌==◌, if◌then◌else◌, ==_iff, Bool-cases,
}
use go_socket_client.Socket.Polling.{Flags, any_flag, Event}
use go_socket_client.Socket.Polling.Poll
use go_socket_client.Socket.Polling.Watched.{mask_of, AllOnce}

-- poll(2) and epoll_ctl(2): the bits that were asked for and are the case, and the errors, which are
-- always reported.
abbrev pub reported : Flags → Flags → Flags
reported ready m = record {
  input = m.input && ready.input;
  output = m.output && ready.output;
  err = ready.err;
  hup = ready.hup;
  nval = ready.nval;
}

-- What is reported of a descriptor with the mask, if it is watched and there is anything.
abbrev pub shown : Flags → Option Flags → Option Flags
shown ready none = none
shown ready (some m) = if any_flag (reported ready m) then some (reported ready m) else none

abbrev pub count_any : List Event → ℕ
count_any [] = 0
count_any (e ∷ es) = (if any_flag e.mask then 1 else 0) + count_any es

-- poll(2) fills in `revents` of every event, and returns the number of those that are not 0.
pub record IsPollAnswer (ready : ℕ → Flags) (es : List Event) (ret : ℕ)
    (revents : ℕ → Flags → Flags) : Type 0 where
  pub fills : (fd : ℕ) (m : Flags) → revents fd m ≡ reported (ready fd) m
  pub counts : ret ≡ count_any (Poll.answered revents es)

-- epoll_wait(2) returns one event, in any order, for every watched descriptor with something to report.
-- A descriptor that is not open cannot be added.
abbrev pub IsEpollAnswer : (ℕ → Flags) → List Event → List Event → Type 0
IsEpollAnswer ready es answer =
    (fd : ℕ) → (ready fd).nval ≡ false → mask_of fd answer ≡ shown (ready fd) (mask_of fd es)

fired-absent :
    (revents : ℕ → Flags → Flags) (fd : ℕ) (es : List Event)
    → mask_of fd es ≡ none
    → mask_of fd (Poll.fired (Poll.answered revents es)) ≡ none
unfolding mask_of Poll.fired Poll.answered
fired-absent revents fd [] h = refl
fired-absent revents fd (e ∷ es) h = ground (arith, h, fired-absent revents fd es)

fire_here :
    (m : Flags) (e : Event) (fs : List Event)
    → mask_of e.fd fs ≡ none
    → mask_of e.fd (if any_flag m then record { fd = e.fd; mask = m } ∷ fs else fs)
      ≡ (if any_flag m then some m else none)
unfolding mask_of
fire_here m e fs h = ground (arith, h)

mask_of-head : (e : Event) (es : List Event) → mask_of e.fd (e ∷ es) ≡ some e.mask
unfolding mask_of
mask_of-head e es = ground arith

fire_there :
    (fd : ℕ) (m : Flags) (e : Event) (fs : List Event)
    → (e.fd == fd) ≡ false
    → mask_of fd (if any_flag m then record { fd = e.fd; mask = m } ∷ fs else fs) ≡ mask_of fd fs
unfolding mask_of
fire_there fd m e fs h = ground (arith, h)

mask_of-tail :
    (fd : ℕ) (e : Event) (es : List Event)
    → (e.fd == fd) ≡ false
    → mask_of fd (e ∷ es) ≡ mask_of fd es
unfolding mask_of
mask_of-tail fd e es h = ground (arith, h)

fire_one :
    (ready : ℕ → Flags) (fd : ℕ) (e : Event) (fs es : List Event)
    → mask_of fd fs ≡ shown (ready fd) (mask_of fd es)
    → (e.fd ≡ fd → mask_of fd fs ≡ none)
    → mask_of fd (
        if any_flag (reported (ready e.fd) e.mask)
        then record { fd = e.fd; mask = reported (ready e.fd) e.mask } ∷ fs
        else fs)
      ≡ shown (ready fd) (mask_of fd (e ∷ es))
fire_one ready fd e fs es h k = elim (Bool-cases (e.fd == fd)) [
  | inl q ↦
      let p = (==_iff e.fd fd).0 q in
      subst
        (λ n.
          mask_of n fs ≡ none
          → mask_of n (
              if any_flag (reported (ready e.fd) e.mask)
              then record { fd = e.fd; mask = reported (ready e.fd) e.mask } ∷ fs
              else fs)
            ≡ shown (ready n) (mask_of n (e ∷ es)))
        p
        (λ a.
          fire_here (reported (ready e.fd) e.mask) e fs a
          ∙ sym (ap (shown (ready e.fd)) (mask_of-head e es)))
        (k p)
  | inr q ↦
      fire_there fd (reported (ready e.fd) e.mask) e fs q
      ∙ h
      ∙ sym (ap (shown (ready fd)) (mask_of-tail fd e es q))
]

fired-shown :
    (ready : ℕ → Flags) (revents : ℕ → Flags → Flags) (fd : ℕ) (es : List Event)
    → ((fd : ℕ) (m : Flags) → revents fd m ≡ reported (ready fd) m)
    → AllOnce es
    → mask_of fd (Poll.fired (Poll.answered revents es)) ≡ shown (ready fd) (mask_of fd es)
unfolding mask_of Poll.fired Poll.answered
fired-shown ready revents fd [] h k = refl
fired-shown ready revents fd (e ∷ es) h k =
    let l = fired-shown ready revents fd es h k.1 in
    let absent : e.fd ≡ fd → mask_of fd (Poll.fired (Poll.answered revents es)) ≡ none =
      λ p. fired-absent revents fd es (subst (λ n. mask_of n es ≡ none) p k.0) in
    let one : revents e.fd e.mask ≡ reported (ready e.fd) e.mask = h e.fd e.mask in
    rw one (fire_one ready fd e _ _ l absent)

none_fired : (es : List Event) → count_any es ≡ 0 → Poll.fired es ≡ []
unfolding Poll.fired
none_fired [] h = refl
none_fired (e ∷ es) h = ground (arith, h, none_fired es)

or_empty : (b : Bool) (es : List Event) → (b ≡ true → es ≡ []) → (if b then [] else es) ≡ es
or_empty true es h = sym (h refl)
or_empty false es h = refl

-- A poll that is answered keeps of each descriptor what is to be reported.
pub poll_events-shown :
    (ready : ℕ → Flags) (es : List Event) (ret : ℕ) (revents : ℕ → Flags → Flags) (fd : ℕ)
    → AllOnce es
    → IsPollAnswer ready es ret revents
    → mask_of fd (Poll.poll_events (some ret) revents es) ≡ shown (ready fd) (mask_of fd es)
unfolding Poll.poll_events
poll_events-shown ready es ret revents fd k h =
    ap (mask_of fd) (
      or_empty (ret == 0) _
        (λ e. none_fired (Poll.answered revents es) (sym h.counts ∙ (==_iff ret 0).0 e)))
    ∙ fired-shown ready revents fd es h.fills k
