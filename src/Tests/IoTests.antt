-- ===== src/Tests/IoTests.antt =====
-- packet/tcp_io.cpp: the theorem on ReadFull at a concrete input.
use go_socket_client.Prelude.{◌≡◌, List, [], ◌∷◌, arith}
use go_socket_client.Packet.Error.{exception, socket_close}
use go_socket_client.Packet.Reader.{stream, read_full}
use go_socket_client.Packet.Gzip.{Bytes}
use go_socket_client.Packet.TcpIo.{as_stream, joined, socket_read, read_loop, read_loop-read_full}

-- Seven bytes in three pieces.
abbrev pieces : List Bytes
pieces = (1 ∷ 2 ∷ []) ∷ (3 ∷ []) ∷ (4 ∷ 5 ∷ 6 ∷ 7 ∷ []) ∷ []

read_loop-read_full_example :
    as_stream (exception socket_close) (read_loop (socket_read (exception socket_close)) 5 5 pieces)
    ≡ read_full 5 (stream (joined pieces) (exception socket_close))
read_loop-read_full_example =
    read_loop-read_full (exception socket_close) 5 5 pieces (omega arith)
      (omega arith, (omega arith, (omega arith, tt)))
