-- ===== src/Connect/Impatient.antt =====
-- connect/complex_connect.cpp: ConnectImpatient, which runs several attempts to connect at once. A
-- deleted connector is `none`. The clock, the select and the operating system's answers to each
-- connector are in a record for each turn of the loop.
pub mod Shape
pub mod Sweeps
pub mod Sockets
pub mod Ranks
pub mod Ends
pub mod Waits
use go_socket_client.Prelude.{
  not, [], ℕ, zero, suc, ◌+◌, ◌-◌, ◌%◌, ◌^◌, Bool, true, false, ◌&&◌, ◌||◌, Option, none, some,
  List, ◌∷◌, ltb, leb, if◌then◌else◌, length,
}
use go_socket_client.Connect.Connector.{
  start, Connector, Answers, error, connected, new_connector, pre_select, after_select,
}
use go_socket_client.Connect.Dns.{AddrInfo}
use go_socket_client.Packet.Gzip.{Bytes}

-- The fields of ComplexConnect
pub record Settings : Type 0 where
  pub timeout : ℕ
  pub interval : ℕ
  pub error_interval : ℕ
  pub max_connect : ℕ

-- `cur` and `start_tick` are the two readings of the clock; a connector's answers are under its index.
pub record Round : Type 0 where
  pub cur : ℕ
  pub start_tick : ℕ
  pub before : ℕ → Answers
  pub after : ℕ → Answers
  pub select_failed : Bool
  pub breaker_exception : Bool
  pub is_break : Bool

-- The locals of the loop, with the number of descriptors that `socket` made, of those that were closed, and
-- of those that PreConnectSelect leaks: where it gives up, it forgets the descriptor and does not close it.
pub record Attempts : Type 0 where
  pub connectors : List (Option Connector)
  pub index : ℕ
  pub last_start : ℕ
  pub last_error : Bool
  pub made : ℕ
  pub closed : ℕ
  pub leaked : ℕ

-- Where a turn leaves the loop: it goes on, or the function returns, with the index of the connector
-- whose socket it returns.
pub data Looped : Type 0 where
  again : Attempts → Looped
  ended : Option ℕ → Attempts → Looped

-- `__IsConnecting`, as a number
unfoldable pub sockets_of : Option Connector → ℕ
sockets_of none = 0
sockets_of (some c) = if c.has_socket then 1 else 0

-- `std::count_if(connectors.begin(), connectors.end(), &__IsConnecting)`
unfoldable pub running : List (Option Connector) → ℕ
running [] = 0
running (x ∷ xs) = sockets_of x + running xs

-- The first loop: PreSelect of the connectors below the index.
unfoldable pub pre_one : Answers → Option Connector → Option Connector
pre_one a none = none
pre_one a (some c) = some (pre_select a c)

unfoldable pub pre_all : (ℕ → Answers) → ℕ → ℕ → List (Option Connector) → List (Option Connector)
pre_all a i zero xs = xs
pre_all a i (suc n) [] = []
pre_all a i (suc n) (x ∷ xs) = pre_one (a i) x ∷ pre_all a (i + 1) n xs

-- The descriptors that PreSelect of a connector makes, and those of them that it forgets.
unfoldable pub opens_of : Answers → Option Connector → ℕ
opens_of a none = 0
opens_of a (some c) = elim c.status [ start ↦ if a.got_socket then 1 else 0 | _ ↦ 0 ]

unfoldable pub leaks_of : Answers → Option Connector → ℕ
leaks_of a none = 0
leaks_of a (some c) = elim c.status [
  | start ↦ if a.got_socket && not (c.has_ip && a.set_noblo && a.connect_begun) then 1 else 0
  | _ ↦ 0
]

unfoldable pub sum_all :
    (Answers → Option Connector → ℕ) → (ℕ → Answers) → ℕ → ℕ → List (Option Connector) → ℕ
sum_all count a i zero xs = 0
sum_all count a i (suc n) [] = 0
sum_all count a i (suc n) (x ∷ xs) = count (a i) x + sum_all count a (i + 1) n xs

-- What the second loop makes of the connectors, up to the first one that is connected.
pub record Swept : Type 0 where
  pub left : List (Option Connector)
  pub closes : ℕ
  pub erred : Bool
  pub winner : Option ℕ

-- One connector after AfterSelect, `xs` behind it, and what the loop makes of those.
unfoldable pub sweep : ℕ → Connector → List (Option Connector) → Swept → Swept
sweep i c xs rest = elim c.status [
  | error ↦ record {
    left = none ∷ rest.left;
    closes = sockets_of (some c) + rest.closes;
    erred = true;
    winner = rest.winner;
  }
  | connected ↦ record { left = none ∷ xs; closes = 0; erred = false; winner = some i }
  | _ ↦ record rest { left = some c ∷ rest.left }
]

unfoldable pub after_all : (ℕ → Answers) → ℕ → ℕ → List (Option Connector) → Swept
after_all a i zero xs = record { left = xs; closes = 0; erred = false; winner = none }
after_all a i (suc n) [] = record { left = []; closes = 0; erred = false; winner = none }
after_all a i (suc n) (none ∷ xs) =
    let rest = after_all a (i + 1) n xs in record rest { left = none ∷ rest.left }
after_all a i (suc n) (some c ∷ xs) =
    let rest = after_all a (i + 1) n xs in sweep i (after_select (a i) c) xs rest

-- `allInvalid`
unfoldable pub all_invalid : List (Option Connector) → Bool
all_invalid [] = true
all_invalid (none ∷ xs) = all_invalid xs
all_invalid (some c ∷ xs) = false

-- The loop after the loop, which closes and deletes what is left.
unfoldable pub clear_all : List (Option Connector) → List (Option Connector)
clear_all [] = []
clear_all (x ∷ xs) = none ∷ clear_all xs

unfoldable pub leave : Option ℕ → Attempts → Looped
leave winner s =
    ended winner
      (record s { connectors = clear_all s.connectors; closed = s.closed + running s.connectors })

-- `nextConnTimeout <= 0`, for times that fit into an int.
unfoldable pub is_next_due : Settings → ℕ → Attempts → Bool
is_next_due o cur s =
    leb (if s.last_error then o.error_interval else o.interval)
      ((cur + 2 ^ 64 - s.last_start) % 2 ^ 64)

-- An address is left and not too many connectors are at work.
unfoldable pub has_room : Settings → Attempts → Bool
has_room o s = ltb s.index (length s.connectors) && ltb (running s.connectors) o.max_connect

-- The next address is taken when its time has come and there are not too many at work.
unfoldable pub may_start : Settings → ℕ → Attempts → Bool
may_start o cur s = has_room o s && is_next_due o cur s

unfoldable pub start_next : Settings → Round → Attempts → Attempts
start_next o r s =
    if may_start o r.cur s
    then record s { last_start = r.start_tick; last_error = false; index = suc s.index }
    else s

-- PreSelect of every connector at work; each may make a socket.
unfoldable pub prepare : Round → Attempts → Attempts
prepare r s =
    let xs = pre_all r.before 0 s.index s.connectors in
    record s {
      connectors = xs;
      made = s.made + sum_all opens_of r.before 0 s.index s.connectors;
      leaked = s.leaked + sum_all leaks_of r.before 0 s.index s.connectors;
    }

-- `if (allInvalid || retSocket != NULL) break;`
unfoldable pub finish_turn : Option ℕ → Attempts → Looped
finish_turn none s = if all_invalid s.connectors then leave none s else again s
finish_turn (some i) s = leave (some i) s

-- The turn after the select.
unfoldable pub conclude : Round → Attempts → Looped
conclude r s =
    let w = after_all r.after 0 s.index s.connectors in
    let t = record s {
      connectors = w.left;
      closed = s.closed + w.closes;
      last_error = s.last_error || w.erred;
    } in
    finish_turn w.winner t

unfoldable pub loop_turn : Settings → Round → Attempts → Looped
loop_turn o r s =
    let t = prepare r (start_next o r s) in
    if r.select_failed || r.breaker_exception || r.is_break then leave none t else conclude r t

-- The loop, as far as the given turns.
unfoldable pub loop : Settings → List Round → Looped → Looped
loop o [] x = x
loop o (r ∷ rs) (again s) = loop o rs (loop_turn o r s)
loop o (r ∷ rs) (ended winner s) = ended winner s

unfoldable pub has_text : Bytes → Bool
has_text [] = false
has_text (b ∷ bs) = true

-- The connectors of the addresses
unfoldable pub connectors_of : ℕ → List AddrInfo → List (Option Connector)
connectors_of timeout [] = []
connectors_of timeout (a ∷ addrs) =
    some (new_connector (has_text a.ip) a.is_tls timeout) ∷ connectors_of timeout addrs

-- ComplexConnect::ConnectImpatient, as far as the given turns, from the time `tick`.
unfoldable pub connect_impatient : Settings → ℕ → List AddrInfo → List Round → Looped
connect_impatient o tick addrs rs =
    let s : Attempts = record {
      connectors = connectors_of o.timeout addrs;
      index = 0;
      last_start = (tick + 2 ^ 64 - o.interval) % 2 ^ 64;
      last_error = false;
      made = 0;
      closed = 0;
      leaked = 0;
    } in
    elim addrs [ [] ↦ ended none s | a ∷ more ↦ loop o rs (again s) ]

-- kConnectTimeout, kConnectInterval, kConnectErrorInterval and kMaxConnectNum of the client
abbrev pub client_settings : Settings
client_settings = record { timeout = 10000; interval = 4000; error_interval = 0; max_connect = 3 }
