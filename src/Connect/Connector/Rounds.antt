-- ===== src/Connect/Connector/Rounds.antt =====
-- connect/tcp_connector.cpp and connect/ssl_connector.cpp: any number of rounds of one connector.
use go_socket_client.Prelude.{
  ◌≡◌, refl, ap, ◌∙◌, Bool, true, false, ◌&&◌, List, [], ◌∷◌, arith, if◌then◌else◌,
}
use go_socket_client.Connect.Connector.{
  ConnectorStatus, Connector, Answers, pre_connect_select, after_connect_select, pre_ssl_select,
  after_ssl_select, tcp_pre_select, tcp_after_select, ssl_part_pre, ssl_part_after, pre_select,
  after_select, round, rounds, start, connecting, error, start_ssl, ssl_connecting, connected, end,
  ssl_none,
}

-- What each status says of the connector: from the moment it connects it has a socket, and only one
-- for a TLS address comes into a TLS status.
abbrev pub is_sound_at : ConnectorStatus → Bool → Bool → Bool
is_sound_at start has_socket is_tls = true
is_sound_at error has_socket is_tls = true
is_sound_at end has_socket is_tls = true
is_sound_at connecting has_socket is_tls = has_socket
is_sound_at connected has_socket is_tls = has_socket
is_sound_at start_ssl has_socket is_tls = has_socket && is_tls
is_sound_at ssl_connecting has_socket is_tls = has_socket && is_tls

abbrev pub IsSound : Connector → Type 0
IsSound c = is_sound_at c.status c.has_socket c.is_tls ≡ true

tcp_pre_select-IsSound : (a : Answers) (c : Connector) → IsSound c → IsSound (tcp_pre_select a c)
unfolding tcp_pre_select pre_connect_select
tcp_pre_select-IsSound a c h = ground (arith, h)

tcp_after_select-IsSound :
    (a : Answers) (c : Connector) → IsSound c → IsSound (tcp_after_select a c)
unfolding tcp_after_select after_connect_select
tcp_after_select-IsSound a c h = ground (arith, h)

ssl_part_pre-IsSound : (a : Answers) (c : Connector) → IsSound c → IsSound (ssl_part_pre a c)
unfolding ssl_part_pre pre_ssl_select
ssl_part_pre-IsSound a c h = ground (arith, h)

ssl_part_after-IsSound : (a : Answers) (c : Connector) → IsSound c → IsSound (ssl_part_after a c)
unfolding ssl_part_after after_ssl_select
ssl_part_after-IsSound a c h = ground (arith, h)

if-IsSound : (b : Bool) (c d : Connector) → IsSound c → IsSound d → IsSound (if b then c else d)
if-IsSound true c d h k = h
if-IsSound false c d h k = k

if_true : (b : Bool) (c d : Connector) → b ≡ true → (if b then c else d) ≡ c
if_true true c d h = refl
if_true false c d h = cc

pre_select-IsSound : (a : Answers) (c : Connector) → IsSound c → IsSound (pre_select a c)
unfolding pre_select
pre_select-IsSound a c h =
    let k = tcp_pre_select-IsSound a c h in
    if-IsSound c.is_tls _ _ (ssl_part_pre-IsSound a (tcp_pre_select a c) k) k

after_select-IsSound : (a : Answers) (c : Connector) → IsSound c → IsSound (after_select a c)
unfolding after_select
after_select-IsSound a c h =
    let k = tcp_after_select-IsSound a c h in
    if-IsSound c.is_tls _ _ (ssl_part_after-IsSound a (tcp_after_select a c) k) k

-- Whatever the operating system, the select and OpenSSL answer, any rounds of the loop keep a
-- connector sound: while it connects and once it is connected it has a socket, and only a connector
-- for a TLS address is ever in one of the two TLS statuses.
pub rounds-IsSound :
    (rs : List (Answers × Answers)) (c : Connector) → IsSound c → IsSound (rounds rs c)
unfolding round
rounds-IsSound [] c h = h
rounds-IsSound ((before, after) ∷ rs) c h =
    rounds-IsSound rs (round before after c)
      (after_select-IsSound after (pre_select before c) (pre_select-IsSound before c h))

-- The answers of rounds in all of which SSL_connect succeeds at once.
abbrev pub AllEarly : List (Answers × Answers) → Type 0
AllEarly [] = Unit
AllEarly ((before, after) ∷ rs) = (before.ssl_result ≡ ssl_none) × AllEarly rs

early_pre :
    (before : Answers) (c : Connector)
    → c.status ≡ start_ssl
    → before.ssl_result ≡ ssl_none
    → ssl_part_pre before (tcp_pre_select before c) ≡ c
unfolding tcp_pre_select ssl_part_pre pre_ssl_select
early_pre before c h e = ground (arith, h, e)

early_after :
    (after : Answers) (c : Connector)
    → c.status ≡ start_ssl
    → ssl_part_after after (tcp_after_select after c) ≡ c
unfolding tcp_after_select ssl_part_after
early_after after c h = ground (arith, h)

early_success :
    (before after : Answers) (c : Connector)
    → c.status ≡ start_ssl
    → c.is_tls ≡ true
    → before.ssl_result ≡ ssl_none
    → round before after c ≡ c
unfolding round pre_select after_select
early_success before after c h t e =
    let p : pre_select before c ≡ c = if_true c.is_tls _ _ t ∙ early_pre before c h e in
    ap (after_select after) p ∙ (if_true c.is_tls _ _ t ∙ early_after after c h)

-- A TLS connector whose TCP connection is made stays as it is for any number of rounds in which
-- SSL_connect succeeds at once: it is never connected, never in error, and no timeout ends it.
pub rounds-early :
    (rs : List (Answers × Answers)) (c : Connector)
    → c.status ≡ start_ssl
    → c.is_tls ≡ true
    → AllEarly rs
    → rounds rs c ≡ c
rounds-early [] c h t e = refl
rounds-early ((before, after) ∷ rs) c h t e =
    rw (early_success before after c h t e.0) (rounds-early rs c h t e.1)
