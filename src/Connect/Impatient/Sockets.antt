-- ===== src/Connect/Impatient/Sockets.antt =====
-- connect/complex_connect.cpp: how many sockets there are, and what becomes of them.
use go_socket_client.Prelude.{
  ℕ, suc, ◌+◌, ◌≤◌, ◌<◌, ◌≡◌, refl, Bool, true, false, ◌||◌, Option, none, some, List, [], ◌∷◌,
  arith, if◌then◌else◌,
}
use go_socket_client.Connect.Dns.{AddrInfo}
use go_socket_client.Connect.Connector.{Connector}
use go_socket_client.Connect.Impatient.{
  Settings, Round, Attempts, Looped, again, ended, sockets_of, running, all_invalid, clear_all,
  leave, finish_turn, may_start, has_room, start_next, prepare, conclude, loop_turn, loop,
  connectors_of, connect_impatient,
}
use go_socket_client.Connect.Impatient.Shape.{Shape, MidShape, pre_all-MidShape, pre_all-next}
use go_socket_client.Connect.Impatient.Sweeps.{after_all-Shape, won}

-- Between two turns
pub record IsSteady (o : Settings) (s : Attempts) : Type 0 where
  pub shape : Shape s.index s.connectors
  pub balance : s.made ≡ s.closed + s.leaked + running s.connectors
  pub few : running s.connectors ≤ o.max_connect

-- During the select
pub record IsMidway (o : Settings) (s : Attempts) : Type 0 where
  pub mid_shape : MidShape s.index s.connectors
  pub mid_balance : s.made ≡ s.closed + s.leaked + running s.connectors
  pub mid_few : running s.connectors ≤ o.max_connect

-- At the end no connector has a socket, and all descriptors that were made are closed or leaked but the one
-- that is returned.
pub record IsOver (winner : Option ℕ) (s : Attempts) : Type 0 where
  pub none_left : running s.connectors ≡ 0
  pub all_closed : s.made ≡ s.closed + s.leaked + won winner

abbrev pub IsSteadyAt : Settings → Looped → Type 0
IsSteadyAt o (again s) = IsSteady o s
IsSteadyAt o (ended winner s) = IsOver winner s

stay-IsMidway : (o : Settings) (r : Round) (s : Attempts) → IsSteady o s → IsMidway o (prepare r s)
unfolding prepare
stay-IsMidway o r s h =
    let k = pre_all-MidShape r.before 0 s.index s.connectors h.shape in
    record {
      mid_shape = k.0;
      mid_balance = omega (arith, k.1, k.2, k.3, h.balance);
      mid_few = omega (arith, k.1, h.few);
    }

next-IsMidway :
    (o : Settings) (r : Round) (s : Attempts)
    → IsSteady o s
    → running s.connectors < o.max_connect
    → IsMidway o (
        prepare r (record s { last_start = r.start_tick; last_error = false; index = suc s.index }))
unfolding prepare
next-IsMidway o r s h f =
    let k = pre_all-next r.before 0 s.index s.connectors h.shape in
    record {
      mid_shape = k.0;
      mid_balance = omega (arith, k.3, h.balance);
      mid_few = omega (arith, k.2, f);
    }

may_start-few :
    (o : Settings) (cur : ℕ) (s : Attempts)
    → may_start o cur s ≡ true
    → running s.connectors < o.max_connect
unfolding may_start has_room
may_start-few o cur s e = ground (arith, e)

prepare_if :
    (o : Settings) (r : Round) (b : Bool) (s t : Attempts)
    → (b ≡ true → IsMidway o (prepare r t))
    → IsMidway o (prepare r s)
    → IsMidway o (prepare r (if b then t else s))
prepare_if o r true s t h k = h refl
prepare_if o r false s t h k = k

-- During the select of a turn, too, there are at most `max_connect` sockets.
prepare-IsMidway :
    (o : Settings) (r : Round) (s : Attempts)
    → IsSteady o s
    → IsMidway o (prepare r (start_next o r s))
unfolding start_next
prepare-IsMidway o r s h =
    prepare_if o r _ s _ (λ e. next-IsMidway o r s h (may_start-few o r.cur s e))
      (stay-IsMidway o r s h)

clear_all-running : (xs : List (Option Connector)) → running (clear_all xs) ≡ 0
unfolding running clear_all sockets_of
clear_all-running [] = refl
clear_all-running (x ∷ xs) = omega (arith, clear_all-running xs)

leave-IsSteadyAt :
    (o : Settings) (winner : Option ℕ) (s : Attempts)
    → s.made ≡ (s.closed + s.leaked + running s.connectors) + won winner
    → IsSteadyAt o (leave winner s)
unfolding leave
leave-IsSteadyAt o winner s h = record {
  none_left = clear_all-running s.connectors;
  all_closed = omega (arith, h);
}

if-IsSteadyAt :
    (o : Settings) (b : Bool) (x y : Looped)
    → IsSteadyAt o x
    → IsSteadyAt o y
    → IsSteadyAt o (if b then x else y)
if-IsSteadyAt o true x y h k = h
if-IsSteadyAt o false x y h k = k

finish_turn-IsSteadyAt :
    (o : Settings) (winner : Option ℕ) (s : Attempts)
    → s.made ≡ (s.closed + s.leaked + running s.connectors) + won winner
    → (winner ≡ none → Shape s.index s.connectors)
    → running s.connectors ≤ o.max_connect
    → IsSteadyAt o (finish_turn winner s)
unfolding finish_turn
finish_turn-IsSteadyAt o none s h k f =
    if-IsSteadyAt o (all_invalid s.connectors) _ _ (leave-IsSteadyAt o none s h)
      (record { shape = k refl; balance = omega (arith, h); few = f })
finish_turn-IsSteadyAt o (some i) s h k f = leave-IsSteadyAt o (some i) s h

conclude-IsSteadyAt :
    (o : Settings) (r : Round) (s : Attempts) → IsMidway o s → IsSteadyAt o (conclude r s)
unfolding conclude
conclude-IsSteadyAt o r s h =
    let k = after_all-Shape r.after 0 s.index s.connectors h.mid_shape in
    finish_turn-IsSteadyAt o _ _ (omega (arith, k.0, h.mid_balance)) k.1
      (omega (arith, k.0, h.mid_few))

pub loop_turn-IsSteadyAt :
    (o : Settings) (r : Round) (s : Attempts) → IsSteady o s → IsSteadyAt o (loop_turn o r s)
unfolding loop_turn
loop_turn-IsSteadyAt o r s h =
    let t = prepare r (start_next o r s) in
    let k = prepare-IsMidway o r s h in
    if-IsSteadyAt o (r.select_failed || r.breaker_exception || r.is_break) _ _
      (leave-IsSteadyAt o none t (omega (arith, k.mid_balance))) (conclude-IsSteadyAt o r t k)

loop-IsSteadyAt :
    (o : Settings) (rs : List Round) (x : Looped) → IsSteadyAt o x → IsSteadyAt o (loop o rs x)
unfolding loop
loop-IsSteadyAt o [] x h = h
loop-IsSteadyAt o (r ∷ rs) (again s) h =
    loop-IsSteadyAt o rs (loop_turn o r s) (loop_turn-IsSteadyAt o r s h)
loop-IsSteadyAt o (r ∷ rs) (ended winner s) h = h

pub connectors_of-Shape :
    (timeout : ℕ) (addrs : List AddrInfo)
    → Shape 0 (connectors_of timeout addrs) × (running (connectors_of timeout addrs) ≡ 0)
unfolding connectors_of running sockets_of
connectors_of-Shape timeout [] = (tt, refl)
connectors_of-Shape timeout (a ∷ addrs) =
    let k = connectors_of-Shape timeout addrs in
    ((record { at_start = refl; no_socket = refl }, k.0), omega (arith, k.1))

-- Whatever the clock, the select, the operating system and OpenSSL answer, any number of turns keep the
-- attempts in order: between two turns there are at most `max_connect` sockets, each of a connector
-- that is at work, and every descriptor that was made is one of them, was closed, or was leaked by a
-- PreConnectSelect that gave up; when the function returns, every descriptor that was made was closed or
-- leaked so, but the one that it returns.
pub connect_impatient-IsSteadyAt :
    (o : Settings) (tick : ℕ) (addrs : List AddrInfo) (rs : List Round)
    → IsSteadyAt o (connect_impatient o tick addrs rs)
unfolding connect_impatient
connect_impatient-IsSteadyAt o tick [] rs =
    unfold running connectors_of in record { none_left = refl; all_closed = refl }
connect_impatient-IsSteadyAt o tick (a ∷ addrs) rs =
    let k = connectors_of-Shape o.timeout (a ∷ addrs) in
    loop-IsSteadyAt o rs (again _)
      (record { shape = k.0; balance = omega (arith, k.1); few = omega (arith, k.1) })
