-- ===== src/Connect/Impatient/Waits.antt =====
-- connect/complex_connect.cpp: the time that the select of a turn may take.
use go_socket_client.Prelude.{
  ℕ, zero, suc, ◌+◌, ◌-◌, ◌/◌, ◌%◌, ◌^◌, ◌≤◌, min, not, ◌&&◌, Option, none, some, List, [], ◌∷◌,
  if◌then◌else◌,
}
use go_socket_client.Connect.Connector.{
  Connector, ConnectorStatus, start, connecting, error, start_ssl, ssl_connecting, connected, end,
}
use go_socket_client.Connect.Impatient.{
  Settings, Round, Attempts, is_next_due, has_room, start_next, prepare,
}

-- INT_MAX
abbrev pub int_max : ℕ
int_max = 2 ^ 31 - 1

-- TcpConnector::Timeout, with 0 in the place of a negative result, which the caller makes of it.
abbrev pub timeout_at : ConnectorStatus → ℕ → ℕ
timeout_at connecting left = left
timeout_at ssl_connecting left = left
timeout_at error left = 0
timeout_at connected left = 0
timeout_at start left = int_max
timeout_at start_ssl left = int_max
timeout_at end left = int_max

unfoldable pub connector_timeout : ℕ → Connector → ℕ
connector_timeout tick c = timeout_at c.status (c.start_conn_time + c.conn_timeout - tick)

-- The least of `wait` and the timeouts of the connectors below the index.
unfoldable pub least_timeout : ℕ → ℕ → ℕ → List (Option Connector) → ℕ
least_timeout wait tick zero xs = wait
least_timeout wait tick (suc n) [] = wait
least_timeout wait tick (suc n) (none ∷ xs) = least_timeout wait tick n xs
least_timeout wait tick (suc n) (some c ∷ xs) =
    least_timeout (min wait (connector_timeout tick c)) tick n xs

-- `nextConnTimeout`, where it is positive
unfoldable pub next_conn_timeout : Settings → ℕ → Attempts → ℕ
next_conn_timeout o cur s =
    (if s.last_error then o.error_interval else o.interval) - (cur + 2 ^ 64 - s.last_start) % 2 ^ 64

unfoldable pub wait_time : Settings → Round → Attempts → ℕ
wait_time o r s =
    if has_room o s && not (is_next_due o r.cur s)
    then min o.timeout (next_conn_timeout o r.cur s)
    else o.timeout

-- `selTimeout`, at the time `tick`; the seconds that the select is given.
unfoldable pub select_seconds : Settings → Round → ℕ → Attempts → ℕ
select_seconds o r tick s =
    let t = prepare r (start_next o r s) in
    least_timeout (wait_time o r s) tick t.index t.connectors / 1000

-- No connector's timeout comes before `w`.
abbrev pub NotPast : ℕ → ℕ → ℕ → List (Option Connector) → Type 0
NotPast w tick zero xs = Unit
NotPast w tick (suc n) [] = Unit
NotPast w tick (suc n) (none ∷ xs) = NotPast w tick n xs
NotPast w tick (suc n) (some c ∷ xs) = (w ≤ connector_timeout tick c) × NotPast w tick n xs
