-- ===== src/Connect/Impatient/Shape.antt =====
-- connect/complex_connect.cpp: what the connectors are at each place of a turn.
use go_socket_client.Prelude.{
  ℕ, zero, suc, ◌+◌, ◌≤◌, ◌≡◌, refl, ap, Bool, true, false, ◌&&◌, Option, none, some, List, [], ◌∷◌,
  arith, if◌then◌else◌,
}
use go_socket_client.Connect.Connector.{
  Connector, ConnectorStatus, Answers, start, connecting, error, start_ssl, ssl_connecting,
  connected, end, pre_select, after_select, pre_connect_select, after_connect_select,
  pre_ssl_select, after_ssl_select, tcp_pre_select, tcp_after_select, ssl_part_pre, ssl_part_after,
}
use go_socket_client.Connect.Impatient.{
  sockets_of, running, pre_one, pre_all, opens_of, leaks_of, sum_all,
}

-- At work: with a socket, in one of the three statuses between the first PreSelect and the end, two of
-- which are for TLS only.
abbrev pub is_on_at : ConnectorStatus → Bool → Bool → Bool
is_on_at start has_socket is_tls = false
is_on_at connecting has_socket is_tls = has_socket
is_on_at error has_socket is_tls = false
is_on_at start_ssl has_socket is_tls = has_socket && is_tls
is_on_at ssl_connecting has_socket is_tls = has_socket && is_tls
is_on_at connected has_socket is_tls = false
is_on_at end has_socket is_tls = false

abbrev pub IsOn : Connector → Type 0
IsOn c = is_on_at c.status c.has_socket c.is_tls ≡ true

-- Not yet begun
pub record IsFresh (c : Connector) : Type 0 where
  pub at_start : c.status ≡ start
  pub no_socket : c.has_socket ≡ false

-- After PreSelect: at work, or in error.
abbrev pub is_begun_at : ConnectorStatus → Bool → Bool → Bool
is_begun_at start has_socket is_tls = false
is_begun_at connecting has_socket is_tls = has_socket
is_begun_at error has_socket is_tls = true
is_begun_at start_ssl has_socket is_tls = has_socket && is_tls
is_begun_at ssl_connecting has_socket is_tls = has_socket && is_tls
is_begun_at connected has_socket is_tls = false
is_begun_at end has_socket is_tls = false

abbrev pub IsBegun : Connector → Type 0
IsBegun c = is_begun_at c.status c.has_socket c.is_tls ≡ true

-- What AfterSelect leaves of such a connector: it may be connected, with its socket.
abbrev pub is_met_at : ConnectorStatus → Bool → Bool → Bool
is_met_at start has_socket is_tls = false
is_met_at connecting has_socket is_tls = has_socket
is_met_at error has_socket is_tls = true
is_met_at start_ssl has_socket is_tls = has_socket && is_tls
is_met_at ssl_connecting has_socket is_tls = has_socket && is_tls
is_met_at connected has_socket is_tls = has_socket
is_met_at end has_socket is_tls = false

abbrev pub IsMet : Connector → Type 0
IsMet c = is_met_at c.status c.has_socket c.is_tls ≡ true

if-IsBegun : (b : Bool) (c d : Connector) → IsBegun c → IsBegun d → IsBegun (if b then c else d)
if-IsBegun true c d h k = h
if-IsBegun false c d h k = k

if-IsMet : (b : Bool) (c d : Connector) → IsMet c → IsMet d → IsMet (if b then c else d)
if-IsMet true c d h k = h
if-IsMet false c d h k = k

pub pre_select-IsOn : (a : Answers) (c : Connector) → IsOn c → IsBegun (pre_select a c)
unfolding pre_select tcp_pre_select ssl_part_pre pre_ssl_select
pre_select-IsOn a c h = ground (arith, h)

pub pre_select-IsFresh : (a : Answers) (c : Connector) → IsFresh c → IsBegun (pre_select a c)
unfolding pre_select tcp_pre_select ssl_part_pre pre_ssl_select pre_connect_select
pre_select-IsFresh a c h = ground (arith, h.at_start)

pub after_select-IsBegun : (a : Answers) (c : Connector) → IsBegun c → IsMet (after_select a c)
unfolding after_select tcp_after_select ssl_part_after after_connect_select after_ssl_select
after_select-IsBegun a c h = ground (arith, h)

pub pre_select-same :
    (a : Answers) (c : Connector) → IsOn c → (pre_select a c).has_socket ≡ c.has_socket
unfolding pre_select tcp_pre_select ssl_part_pre pre_ssl_select
pre_select-same a c h = ground (arith, h)

pub after_select-same : (a : Answers) (c : Connector) → (after_select a c).has_socket ≡ c.has_socket
unfolding after_select tcp_after_select ssl_part_after after_connect_select after_ssl_select
after_select-same a c = ground arith

abbrev pub FreshOption : Option Connector → Type 0
FreshOption none = false ≡ true
FreshOption (some c) = IsFresh c

abbrev pub OnOption : Option Connector → Type 0
OnOption none = Unit
OnOption (some c) = IsOn c

abbrev pub BegunOption : Option Connector → Type 0
BegunOption none = Unit
BegunOption (some c) = IsBegun c

-- Between two turns: the connectors below the index are at work or gone, the others not yet begun.
abbrev pub Shape : ℕ → List (Option Connector) → Type 0
Shape n [] = Unit
Shape zero (x ∷ xs) = FreshOption x × Shape zero xs
Shape (suc n) (x ∷ xs) = OnOption x × Shape n xs

-- During the select
abbrev pub MidShape : ℕ → List (Option Connector) → Type 0
MidShape n [] = Unit
MidShape zero (x ∷ xs) = FreshOption x × MidShape zero xs
MidShape (suc n) (x ∷ xs) = BegunOption x × MidShape n xs

fresh-MidShape : (xs : List (Option Connector)) → Shape zero xs → MidShape zero xs
fresh-MidShape [] h = tt
fresh-MidShape (x ∷ xs) h = (h.0, fresh-MidShape xs h.1)

fresh_balance :
    (a : Answers) (c : Connector)
    → IsFresh c
    → sockets_of (some (pre_select a c)) + leaks_of a (some c) ≡ opens_of a (some c)
unfolding sockets_of leaks_of opens_of pre_select tcp_pre_select ssl_part_pre pre_ssl_select
    pre_connect_select
fresh_balance a c h = ground (arith, h.at_start, h.no_socket)

pre_one-OnOption :
    (a : Answers) (x : Option Connector)
    → OnOption x
    → BegunOption (pre_one a x)
      × (sockets_of (pre_one a x) ≡ sockets_of x)
      × (opens_of a x ≡ 0)
      × (leaks_of a x ≡ 0)
unfolding pre_one sockets_of opens_of leaks_of
pre_one-OnOption a none h = (tt, refl, refl, refl)
pre_one-OnOption a (some c) h = (
  pre_select-IsOn a c h,
  ap (λ b. if b then 1 else 0) (pre_select-same a c h),
  ground (arith, h),
  ground (arith, h),
)

pre_one-FreshOption :
    (a : Answers) (x : Option Connector)
    → FreshOption x
    → BegunOption (pre_one a x)
      × (sockets_of x ≡ 0)
      × (sockets_of (pre_one a x) ≤ 1)
      × (sockets_of (pre_one a x) + leaks_of a x ≡ opens_of a x)
unfolding pre_one sockets_of
pre_one-FreshOption a none h = ground (arith, h)
pre_one-FreshOption a (some c) h =
    (pre_select-IsFresh a c h, ground (arith, h.no_socket), ground arith, fresh_balance a c h)

pub pre_all-MidShape :
    (a : ℕ → Answers) (i n : ℕ) (xs : List (Option Connector))
    → Shape n xs
    → MidShape n (pre_all a i n xs)
      × (running (pre_all a i n xs) ≡ running xs)
      × (sum_all opens_of a i n xs ≡ 0)
      × (sum_all leaks_of a i n xs ≡ 0)
unfolding pre_all running sum_all
pre_all-MidShape a i zero [] h = (tt, refl, refl, refl)
pre_all-MidShape a i zero (x ∷ xs) h = (fresh-MidShape (x ∷ xs) h, refl, refl, refl)
pre_all-MidShape a i (suc n) [] h = (tt, refl, refl, refl)
pre_all-MidShape a i (suc n) (x ∷ xs) h =
    let k = pre_one-OnOption (a i) x h.0 in
    let l = pre_all-MidShape a (i + 1) n xs h.1 in
    ((k.0, l.0), omega (arith, k.1, l.1), omega (arith, k.2, l.2), omega (arith, k.3, l.3))

-- The same when the index has just passed one more connector.
pub pre_all-next :
    (a : ℕ → Answers) (i n : ℕ) (xs : List (Option Connector))
    → Shape n xs
    → MidShape (suc n) (pre_all a i (suc n) xs)
      × (running xs ≤ running (pre_all a i (suc n) xs))
      × (running (pre_all a i (suc n) xs) ≤ running xs + 1)
      × (running (pre_all a i (suc n) xs) + sum_all leaks_of a i (suc n) xs
          ≡ running xs + sum_all opens_of a i (suc n) xs)
unfolding pre_all running sum_all
pre_all-next a i n [] h = (tt, omega arith, omega arith, omega arith)
pre_all-next a i zero (x ∷ xs) h =
    let k = pre_one-FreshOption (a i) x h.0 in
    (
      (k.0, fresh-MidShape xs h.1),
      omega (arith, k.1),
      omega (arith, k.1, k.2),
      omega (arith, k.1, k.3),
    )
pre_all-next a i (suc n) (x ∷ xs) h =
    let k = pre_one-OnOption (a i) x h.0 in
    let l = pre_all-next a (i + 1) n xs h.1 in
    (
      (k.0, l.0),
      omega (arith, k.1, l.1),
      omega (arith, k.1, l.2),
      omega (arith, k.1, k.2, k.3, l.3),
    )
