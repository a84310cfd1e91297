-- ===== src/Connect/Dns.antt =====
-- connect/dns_query.cpp, and the addresses that TcpClient::__RunConnect makes of its result.
use go_socket_client.Prelude.{
  ℕ, zero, suc, ◌+◌, ◌≡◌, refl, ◌≢◌, Bool, Option, none, some, List, [], ◌∷◌, arith, leb,
  if◌then◌else◌, length, get_elem?,
}
use go_socket_client.Packet.Error.{Outcome, ok, undefined, ◌>>=◌}
use go_socket_client.Packet.Gzip.{Bytes}

-- AddrInfo
pub record AddrInfo : Type 0 where
  pub ip : Bytes
  pub port : ℕ
  pub is_tls : Bool

-- What the query meets: the user's resolver, if one is set; what getaddrinfo gave on the query's thread
-- before the select ended, if it came to that; whether the client's breaker was broken.
pub record Lookup : Type 0 where
  pub http_dns : Option (Bytes → List Bytes)
  pub resolved : Option (List Bytes)
  pub is_break : Bool

-- `_cacheIps` after DnsQuery::__GetIps, or as it was if getaddrinfo failed or is still running.
unfoldable pub get_ips : Option (List Bytes) → List Bytes → List Bytes
get_ips resolved cache_ips = elim resolved [ none ↦ cache_ips | some ips ↦ ips ]

-- `if (ips.empty()) ips.push_back(backupIp);`
unfoldable pub or_backup : Bytes → List Bytes → List Bytes
or_backup backup_ip [] = backup_ip ∷ []
or_backup backup_ip (ip ∷ ips) = ip ∷ ips

unfoldable pub ask_http_dns : Option (Bytes → List Bytes) → Bytes → List Bytes
ask_http_dns http_dns host = elim http_dns [ none ↦ [] | some f ↦ f host ]

-- DnsQuery::GetHostByName when the user's resolver gave these addresses, and the cache after it;
-- `none` is the result `false`.
unfoldable pub look_up : List Bytes → Lookup → Bytes → List Bytes → Option (List Bytes) × List Bytes
look_up [] l backup_ip cache_ips =
    if l.is_break
    then (none, get_ips l.resolved cache_ips)
    else (some (or_backup backup_ip (get_ips l.resolved cache_ips)), get_ips l.resolved cache_ips)
look_up (ip ∷ ips) l backup_ip cache_ips = (some (ip ∷ ips), cache_ips)

-- DnsQuery::GetHostByName
unfoldable pub get_host_by_name :
    Lookup → Bytes → Bytes → List Bytes → Option (List Bytes) × List Bytes
get_host_by_name l host backup_ip cache_ips =
    look_up (ask_http_dns l.http_dns host) l backup_ip cache_ips

-- The loop that makes the addresses, with the number of those that are still missing. An index
-- outside the vector is undefined.
unfoldable pub make_addrs : ℕ → ℕ → List Bytes → ℕ → Bool → Outcome (List AddrInfo)
make_addrs zero ip_index ips port is_tls = ok []
make_addrs (suc missing) ip_index ips port is_tls =
    let next = if leb (length ips) (ip_index + 1) then 0 else ip_index + 1 in
    let rest = make_addrs missing next ips port is_tls in
    elim (get_elem? ips ip_index) [
      | none ↦ undefined
      | some ip ↦ rest >>= λ addrs. ok (record { ip = ip; port = port; is_tls = is_tls } ∷ addrs)
    ]

-- The first three addresses, those of a shorter list again from its start.
abbrev pub three_of : List Bytes → List Bytes
three_of [] = []
three_of (a ∷ []) = a ∷ a ∷ a ∷ []
three_of (a ∷ b ∷ []) = a ∷ b ∷ a ∷ []
three_of (a ∷ b ∷ c ∷ ips) = a ∷ b ∷ c ∷ []

abbrev pub with_port : ℕ → Bool → List Bytes → List AddrInfo
with_port port is_tls [] = []
with_port port is_tls (ip ∷ ips) =
    record { ip = ip; port = port; is_tls = is_tls } ∷ with_port port is_tls ips

make_addrs-three :
    (ips : List Bytes) (port : ℕ) (is_tls : Bool)
    → ips ≢ []
    → make_addrs 3 0 ips port is_tls ≡ ok (with_port port is_tls (three_of ips))
unfolding make_addrs
make_addrs-three [] port is_tls h = absurd (h refl)
make_addrs-three (a ∷ []) port is_tls h = refl
make_addrs-three (a ∷ b ∷ []) port is_tls h = refl
make_addrs-three (a ∷ b ∷ c ∷ ips) port is_tls h = ground arith

or_backup-nonempty : (backup_ip : Bytes) (ips : List Bytes) → or_backup backup_ip ips ≢ []
unfolding or_backup
or_backup-nonempty backup_ip [] e = cc
or_backup-nonempty backup_ip (ip ∷ ips) e = cc

look_up-nonempty :
    (given : List Bytes) (l : Lookup) (backup_ip : Bytes) (cache_ips ips : List Bytes)
    → (look_up given l backup_ip cache_ips).0 ≡ some ips
    → ips ≢ []
unfolding look_up
look_up-nonempty [] l backup_ip cache_ips ips h e =
    or_backup-nonempty backup_ip (get_ips l.resolved cache_ips) (ground (arith, h, e))
look_up-nonempty (ip ∷ given) l backup_ip cache_ips ips h e = cc

-- Whatever the user's resolver, getaddrinfo and the cache gave, addresses that GetHostByName returns
-- are turned into exactly three addresses to connect to, without reading outside the vector: its
-- first three, or those of a shorter one again from its start, with the client's port and TLS flag.
pub get_host_by_name-make_addrs :
    (l : Lookup) (host backup_ip : Bytes) (cache_ips ips : List Bytes) (port : ℕ) (is_tls : Bool)
    → (get_host_by_name l host backup_ip cache_ips).0 ≡ some ips
    → make_addrs 3 0 ips port is_tls ≡ ok (with_port port is_tls (three_of ips))
unfolding get_host_by_name
get_host_by_name-make_addrs l host backup_ip cache_ips ips port is_tls h =
    make_addrs-three ips port is_tls
      (look_up-nonempty (ask_http_dns l.http_dns host) l backup_ip cache_ips ips h)
