-- ===== src/Connect/Connector.antt =====
-- connect/tcp_connector.cpp and connect/ssl_connector.cpp: one attempt to connect, which a select drives.
-- What the operating system, the select and OpenSSL answer is in a record; the descriptor of the socket
-- and what is watched of it are not part of the model.
pub mod Rounds
use go_socket_client.Prelude.{
  ℕ, ◌+◌, Bool, true, false, not, ◌||◌, List, [], ◌∷◌, leb, if◌then◌else◌,
}

-- ConnectorStatus
pub data ConnectorStatus : Type 0 where
  start connecting error start_ssl ssl_connecting connected end : ConnectorStatus

-- The fields of TcpConnector; `has_socket` is `_socket != NULL`.
pub record Connector : Type 0 where
  pub has_ip : Bool
  pub is_tls : Bool
  pub has_socket : Bool
  pub status : ConnectorStatus
  pub conn_timeout : ℕ
  pub start_conn_time : ℕ

-- The results of SSL_connect that the code tells apart.
pub data SslResult : Type 0 where
  ssl_want_read ssl_want_write ssl_none ssl_failure : SslResult

-- The answers to one round: gettickcount, socket, socket_set_noblo, connect, the select's three sets,
-- socket_set_blo, and `_socket->Connect()`.
pub record Answers : Type 0 where
  pub tick : ℕ
  pub got_socket : Bool
  pub set_noblo : Bool
  pub connect_begun : Bool
  pub exception_set : Bool
  pub write_set : Bool
  pub read_set : Bool
  pub set_blo : Bool
  pub ssl_result : SslResult

abbrev pub new_connector : Bool → Bool → ℕ → Connector
new_connector has_ip is_tls conn_timeout = record {
  has_ip = has_ip;
  is_tls = is_tls;
  has_socket = false;
  status = start;
  conn_timeout = conn_timeout;
  start_conn_time = 0;
}

-- `timeout <= 0` for the int that TcpConnector::Timeout returns while connecting, for times that fit.
unfoldable pub is_late : ℕ → Connector → Bool
is_late tick c = leb (c.start_conn_time + c.conn_timeout) tick

-- TcpConnector::Close
unfoldable pub close_connector : Connector → Connector
close_connector c = if c.has_socket then record c { has_socket = false; status = end } else c

-- TcpConnector::PreConnectSelect
unfoldable pub pre_connect_select : Answers → Connector → Connector
pre_connect_select a c =
    if not a.got_socket || not c.has_ip || not a.set_noblo
    then record c { status = error }
    else (if not a.connect_begun
        then record c { status = error; start_conn_time = a.tick }
        else record c { status = connecting; start_conn_time = a.tick; has_socket = true })

-- TcpConnector::AfterConnectSelect
unfoldable pub after_connect_select : Answers → Connector → Connector
after_connect_select a c =
    if not c.has_socket || a.exception_set
    then record c { status = error }
    else (if a.write_set
        then (if c.is_tls
            then record c { status = start_ssl }
            else (if a.set_blo
                then record c { status = connected }
                else record c { status = error }))
        else (if is_late a.tick c then record c { status = error } else c))

-- SSLConnector::PreSSLSelect
unfoldable pub pre_ssl_select : SslResult → Connector → Connector
pre_ssl_select ssl_want_read c = record c { status = ssl_connecting }
pre_ssl_select ssl_want_write c = record c { status = ssl_connecting }
pre_ssl_select ssl_none c = c
pre_ssl_select ssl_failure c = record c { status = error }

-- SSLConnector::AfterSSLSelect
unfoldable pub after_ssl_select : Answers → Connector → Connector
after_ssl_select a c =
    if a.exception_set
    then record c { status = error }
    else (if a.write_set || a.read_set
        then (if a.set_blo then record c { status = connected } else record c { status = error })
        else (if is_late a.tick c then record c { status = error } else c))

-- TcpConnector::PreSelect
unfoldable pub tcp_pre_select : Answers → Connector → Connector
tcp_pre_select a c = elim c.status [ start ↦ pre_connect_select a c | _ ↦ c ]

-- TcpConnector::AfterSelect
unfoldable pub tcp_after_select : Answers → Connector → Connector
tcp_after_select a c = elim c.status [ connecting ↦ after_connect_select a c | _ ↦ c ]

-- The second part of SSLConnector::PreSelect; in the status SSLConnecting it only watches the socket.
unfoldable pub ssl_part_pre : Answers → Connector → Connector
ssl_part_pre a c = elim c.status [ start_ssl ↦ pre_ssl_select a.ssl_result c | _ ↦ c ]

unfoldable pub ssl_part_after : Answers → Connector → Connector
ssl_part_after a c = elim c.status [ ssl_connecting ↦ after_ssl_select a c | _ ↦ c ]

-- PreSelect of the class that ConnectImpatient makes: an SSLConnector for a TLS address.
unfoldable pub pre_select : Answers → Connector → Connector
pre_select a c = if c.is_tls then ssl_part_pre a (tcp_pre_select a c) else tcp_pre_select a c

unfoldable pub after_select : Answers → Connector → Connector
after_select a c =
    if c.is_tls then ssl_part_after a (tcp_after_select a c) else tcp_after_select a c

-- A round of the loop of ConnectImpatient for one connector.
unfoldable pub round : Answers → Answers → Connector → Connector
round before after c = after_select after (pre_select before c)

abbrev pub rounds : List (Answers × Answers) → Connector → Connector
rounds [] c = c
rounds ((before, after) ∷ rs) c = rounds rs (round before after c)
