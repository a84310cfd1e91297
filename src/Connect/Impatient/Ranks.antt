-- ===== src/Connect/Impatient/Ranks.antt =====
-- connect/complex_connect.cpp: what a turn past the timeouts takes from the connectors.
use go_socket_client.Prelude.{
  ℕ, zero, suc, ◌+◌, ◌≤◌, ◌<◌, ◌≡◌, refl, ◌≢◌, true, false, Option, none, some, List, [], ◌∷◌,
  arith, length,
}
use go_socket_client.Connect.Connector.{
  Connector, ConnectorStatus, Answers, start, connecting, error, start_ssl, ssl_connecting,
  connected, end, ssl_none, pre_select, after_select, pre_connect_select, after_connect_select,
  pre_ssl_select, after_ssl_select, tcp_pre_select, tcp_after_select, ssl_part_pre, ssl_part_after,
  is_late,
}
use go_socket_client.Connect.Impatient.{
  sockets_of, running, pre_one, pre_all, Swept, sweep, after_all,
}
use go_socket_client.Connect.Impatient.Shape.{IsOn, IsFresh, Shape}
use go_socket_client.Connect.Impatient.Sweeps.{none-running}

-- How many turns, each past the timeouts, a connector can still take.
abbrev pub rank_at : ConnectorStatus → ℕ
rank_at start = 4
rank_at connecting = 3
rank_at start_ssl = 2
rank_at ssl_connecting = 1
rank_at error = 0
rank_at connected = 0
rank_at end = 0

abbrev pub rank_of : Option Connector → ℕ
rank_of none = 0
rank_of (some c) = rank_at c.status

abbrev pub total : List (Option Connector) → ℕ
total [] = 0
total (x ∷ xs) = rank_of x + total xs

-- The answers to one connector in a turn that lasts past its timeout, and in which SSL_connect does not
-- succeed at once.
abbrev pub IsLong : Answers → Answers → Option Connector → Type 0
IsLong before after none = Unit
IsLong before after (some c) =
    (before.ssl_result ≢ ssl_none) × (is_late after.tick (pre_select before c) ≡ true)

abbrev pub AllLong : (ℕ → Answers) → (ℕ → Answers) → ℕ → ℕ → List (Option Connector) → Type 0
AllLong before after i zero xs = Unit
AllLong before after i (suc n) [] = Unit
AllLong before after i (suc n) (x ∷ xs) =
    IsLong (before i) (after i) x × AllLong before after (i + 1) n xs

long-IsOn :
    (before after : Answers) (c : Connector)
    → IsOn c
    → before.ssl_result ≢ ssl_none
    → is_late after.tick (pre_select before c) ≡ true
    → rank_at (after_select after (pre_select before c)).status + 1 ≤ rank_at c.status
unfolding pre_select tcp_pre_select ssl_part_pre pre_ssl_select after_select tcp_after_select
    ssl_part_after after_connect_select after_ssl_select
long-IsOn before after c h n l = ground (arith, h, n, l)

long-IsFresh :
    (before after : Answers) (c : Connector)
    → IsFresh c
    → rank_at (after_select after (pre_select before c)).status + 1 ≤ rank_at c.status
unfolding pre_select tcp_pre_select ssl_part_pre pre_ssl_select pre_connect_select after_select
    tcp_after_select ssl_part_after after_connect_select after_ssl_select
long-IsFresh before after c h = ground (arith, h.at_start)

fresh-running : (xs : List (Option Connector)) → Shape 0 xs → running xs ≡ 0
unfolding running sockets_of
fresh-running [] h = refl
fresh-running (none ∷ xs) h = ground (arith, h.0)
fresh-running (some c ∷ xs) h = ground (arith, h.0.no_socket, fresh-running xs h.1)

some-running-few :
    (c : Connector) (xs : List (Option Connector)) → running (some c ∷ xs) ≤ running xs + 1
unfolding running sockets_of
some-running-few c xs = ground arith

sweep-total :
    (i : ℕ) (c : Connector) (xs : List (Option Connector)) (rest : Swept)
    → (sweep i c xs rest).winner ≡ none
    → (rest.winner ≡ none) × (total (sweep i c xs rest).left ≤ rank_at c.status + total rest.left)
unfolding sweep
sweep-total i c xs rest e = ground (arith, e)

-- A turn past the timeouts takes at least one from the rank of every connector at work.
pub after_all-total :
    (before after : ℕ → Answers) (i n : ℕ) (xs : List (Option Connector))
    → Shape n xs
    → AllLong before after i n xs
    → let w = after_all after i n (pre_all before i n xs) in
      w.winner ≡ none → total w.left + running xs ≤ total xs
unfolding after_all pre_all pre_one running
after_all-total before after i zero xs h l e = omega (arith, fresh-running xs h)
after_all-total before after i (suc n) [] h l e = ground arith
after_all-total before after i (suc n) (none ∷ xs) h l e =
    omega (arith, after_all-total before after (i + 1) n xs h.1 l.1 e, none-running xs)
after_all-total before after i (suc n) (some c ∷ xs) h l e =
    let rest = after_all after (i + 1) n (pre_all before (i + 1) n xs) in
    let d = after_select (after i) (pre_select (before i) c) in
    let k = sweep-total i d (pre_all before (i + 1) n xs) rest e in
    let m = after_all-total before after (i + 1) n xs h.1 l.1 k.0 in
    let o = long-IsOn (before i) (after i) c h.0 l.0.0 l.0.1 in
    omega (arith, k.1, m, o, some-running-few c xs)

-- And a connector that is begun takes at least one, too.
pub after_all-next :
    (before after : ℕ → Answers) (i n : ℕ) (xs : List (Option Connector))
    → Shape n xs
    → AllLong before after i n xs
    → n < length xs
    → let w = after_all after i (suc n) (pre_all before i (suc n) xs) in
      w.winner ≡ none → total w.left + 1 ≤ total xs
unfolding after_all pre_all pre_one
after_all-next before after i n [] h l s e = omega (arith, s)
after_all-next before after i zero (none ∷ xs) h l s e = ground (arith, h.0)
after_all-next before after i zero (some c ∷ xs) h l s e =
    let rest : Swept = record { left = xs; closes = 0; erred = false; winner = none } in
    let d = after_select (after i) (pre_select (before i) c) in
    let k = sweep-total i d xs rest e in omega (arith, k.1, long-IsFresh (before i) (after i) c h.0)
after_all-next before after i (suc n) (none ∷ xs) h l s e =
    omega (arith, after_all-next before after (i + 1) n xs h.1 l.1 (ground (arith, s)) e)
after_all-next before after i (suc n) (some c ∷ xs) h l s e =
    let rest = after_all after (i + 1) (suc n) (pre_all before (i + 1) (suc n) xs) in
    let d = after_select (after i) (pre_select (before i) c) in
    let k = sweep-total i d (pre_all before (i + 1) (suc n) xs) rest e in
    let m = after_all-next before after (i + 1) n xs h.1 l.1 (ground (arith, s)) k.0 in
    omega (arith, k.1, m, long-IsOn (before i) (after i) c h.0 l.0.0 l.0.1)
