-- ===== src/Lib.antt =====
-- The socket client of this repository: a binary protocol over TCP or TLS, and a client that connects,
-- keeps the connection alive, sends requests and calls their callbacks.
--
-- Parts and files. A file's first lines name the source that it is about; definitions have the names
-- of the source's functions, in small letters with underscores.
-- Packet/: packet/. `Packet.Reader` is the interface IReader as a stream of bytes with the exception at
--   its end, `Packet.TcpIo` the reader over a socket. `Packet.Encoding` and `Packet.Decoding` are
--   encoding.cpp, with the compression as the interface `Packet.Gzip`, which `Packet.Zlib` fills with the
--   loops of __gzipCompress and __gzipUncompress over a zlib. `Packet.Header` is fix_header.cpp and
--   WriteHeader of message_base.cpp, `Packet.Message` message.cpp and message_manager.cpp. Code that reads
--   is a function of the stream; it returns, throws, or is undefined where C++ leaves it undefined.
-- Timer/: common/message_queue.cpp and common/alarm.cpp. The run loop is a sequence of passes; the calls
--   of other threads stand between its steps.
-- Socket/: `Socket.Breaker` is socket/socket_breaker.cpp, the pipe that wakes a select, and
--   `Socket.Polling` the event lists of socket/socket_poll.cpp and socket/socket_epoll.cpp, which
--   share their types and their tests of a descriptor, and those of socket/socket_kqueue.cpp.
--   `Socket.TcpSocket` has both classes of socket/tcp_socket.cpp and socket/ssl_socket.cpp,
--   `Socket.Tls` what TLS does to the reads.
-- Connect/: `Connect.Dns` is connect/dns_query.cpp with the addresses that the client makes of a lookup,
--   `Connect.Connector` the state machines of connect/tcp_connector.cpp and connect/ssl_connector.cpp,
--   `Connect.Impatient` the loop of connect/complex_connect.cpp over several of them.
-- Client/: tcp_client.cpp. A record holds the fields of TcpClient; each function is one step under its
--   lock. `Client.Calls` has the calls and callbacks, `Client.Requests` the sending, `Client.Connecting`
--   __RunConnect, `Client.Loop` __RunReadWrite and __Run. The loop writes and reads with the codecs of
--   Packet, starts the alarms of Timer and clears the breakers of Socket. `Client.Machine` has the calls,
--   callbacks and steps of the thread as events, in any order, and the thread as a run of them.
--   `Client.Wakeup` takes the calls that signal apart, and lets their parts come between one another.
-- NetCore: net_core.cpp, which passes the calls of the library's user to the one client.
--
-- Numbers are natural numbers with the width of the source's type written out. Loops are recursion on
-- the list that is left; the read over a socket has fuel, for which the number of bytes to read is
-- enough; the loops over zlib have fuel, for which what zlib still has to do is enough. The length decoder
-- has the four rounds of its source, the address loop its three. The loop of ConnectImpatient takes its
-- turns from a list of what the clock, the select and the operating system answer.
--
-- Not modelled: zlib, OpenSSL with the TLS handshake, poll, epoll_wait and kevent, getaddrinfo
-- (arguments with what their manuals say where a theorem needs it), the errno and the time-out of a
-- poll, the calls of setsockopt and fcntl in packet/unix_socket.cpp, SetHttpDns (the resolver is an
-- argument), when the detached threads of the callbacks run, what becomes of the numbers of a closed
-- breaker's descriptors, the JNI and log layers, clocks and waits (times are arguments), and the vendored
-- headers of OpenSSL.
pub mod Prelude
pub mod Packet
pub mod Timer
pub mod Socket
pub mod Connect
pub mod Client
pub mod NetCore
mod Tests
