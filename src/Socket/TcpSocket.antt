-- ===== src/Socket/TcpSocket.antt =====
-- socket/tcp_socket.cpp and socket/ssl_socket.cpp, with the writer and the reader of packet/tcp_io.cpp
-- on top of them: both classes of sockets in one record. What send, recv and OpenSSL answer is an
-- argument.
use go_socket_client.Prelude.{
  ℕ, Bool, true, false, not, ◌&&◌, Option, none, some, List, [], ◌∷◌, ◌==◌, if◌then◌else◌,
}
use go_socket_client.Packet.Error.{
  Outcome, ok, throw, fail, invalid_socket, socket_close, socket_error,
}
use go_socket_client.Packet.Gzip.{Bytes}
use go_socket_client.Packet.TcpIo.{read_loop}

-- `descriptor` is `none` for INVALID_SOCKET. Of an SSLSocket, `ssl` says whether `_ssl` is not NULL.
pub record TcpSocket : Type 0 where
  pub descriptor : Option ℕ
  pub is_ssl : Bool
  pub ssl : Bool
  pub connect_error : ℕ

-- The constructors
unfoldable pub new_socket : Bool → Option ℕ → TcpSocket
new_socket is_ssl descriptor = record {
  descriptor = descriptor;
  is_ssl = is_ssl;
  ssl = false;
  connect_error = 0;
}

-- TcpSocket::IsInvalid
unfoldable pub is_invalid : TcpSocket → Bool
is_invalid s = elim s.descriptor [ none ↦ true | some fd ↦ false ]

-- TcpSocket::GetSocket
unfoldable pub get_socket : TcpSocket → Option ℕ
get_socket s = s.descriptor

-- What OpenSSL answers to Connect: whether SSL_new makes an object, whether SSL_connect returns 1, and
-- the code of SSL_get_error.
pub record SslAnswer : Type 0 where
  pub makes : Bool
  pub done : Bool
  pub error : ℕ

-- Connect of both classes; the result is `none` for -1, and SSL_ERROR_NONE is 0.
unfoldable pub connect : SslAnswer → TcpSocket → Option ℕ × TcpSocket
connect a s =
    if not s.is_ssl
    then (some 1, s)
    else (if not a.makes
        then (none, record s { ssl = false })
        else (if a.done
            then (some 0, record s { ssl = true })
            else (some a.error, record s { ssl = true; connect_error = a.error })))

-- GetConnectError of both classes
unfoldable pub get_connect_error : TcpSocket → ℕ
get_connect_error s = if s.is_ssl then s.connect_error else 0

-- What a Close gives back.
pub data Release : Type 0 where
  free_ssl : Release
  close_descriptor : ℕ → Release

-- Close of both classes
unfoldable pub close : TcpSocket → List Release × TcpSocket
close s = elim s.descriptor [
  | none ↦ ([], s)
  | some fd ↦ (
    if s.is_ssl && s.ssl then free_ssl ∷ close_descriptor fd ∷ [] else close_descriptor fd ∷ [],
    record s { descriptor = none },
  )
]

-- What recv or SSL_read answers: bytes, of which there are none at the end of the connection, or an
-- error with its code.
pub data ReadAnswer : Type 0 where
  gave : Bytes → ReadAnswer
  read_failed : ℕ → ReadAnswer

-- Read of both classes
unfoldable pub read {ℓ} : {S : Type ℓ} → ReadAnswer × S → Outcome (Bytes × S)
read (gave [], s) = fail socket_close
read (gave (x ∷ xs), s) = ok (x ∷ xs, s)
read (read_failed e, s) = throw (record { exc_type = socket_error; error_no = e })

-- What send or SSL_write answers: the number of bytes it took, or an error.
pub data WriteAnswer : Type 0 where
  took : ℕ → WriteAnswer
  write_failed : WriteAnswer

-- Write of both classes; `code` is errno, or what SSL_get_error says.
unfoldable pub write : ℕ → WriteAnswer → TcpSocket → Outcome (Unit {0})
write code (took n) s =
    if s.is_ssl && (n == 0)
    then throw (record { exc_type = socket_error; error_no = code })
    else ok tt
write code write_failed s = throw (record { exc_type = socket_error; error_no = code })

-- TcpWriter::Write, `none` for a NULL socket
unfoldable pub writer_write : ℕ → WriteAnswer → Option TcpSocket → Outcome (Unit {0})
writer_write code a none = fail invalid_socket
writer_write code a (some s) = write code a s

-- TcpReader::ReadFull, `none` for a NULL socket; each turn reads at least one byte.
unfoldable pub reader_read_full {ℓ} :
    {S : Type ℓ} → (ℕ → S → ReadAnswer × S) → ℕ → Option S → Outcome (Bytes × S)
reader_read_full answer n none = fail invalid_socket
reader_read_full answer n (some s) = read_loop (λ k x. read (answer k x)) n n s
