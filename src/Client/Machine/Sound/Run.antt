-- ===== src/Client/Machine/Sound/Run.antt =====
-- tcp_client.cpp: the steps of the thread, and any run of events, keep the client sound.
use go_socket_client.Packet.Message.{Message}
use go_socket_client.Client.{Client}
