-- ===== src/Shared/Connection.antt =====
-- getConnectedIp and getConnectedPort of shared/sharedUtils.cpp: the address of the peer of a
-- connected socket, as `getpeername` gives it, and the socket's input as the loops over `recv` see it.
use p2p_network.Base.{ℕ, ◌+◌, ◌*◌, ◌/◌, ◌%◌, List, ◌++◌, length, drop, Text}

pub record Connection : Type 0 where
  pub peer_ip : Text
  pub peer_port : ℕ

-- The two bytes of a 16-bit number exchanged: the network's order on a little-endian host.
unfoldable pub htons : ℕ → ℕ
htons port = port % 256 * 256 + port / 256 % 256

unfoldable pub get_connected_ip : Connection → Text
get_connected_ip c = c.peer_ip

-- `sin_port` as it stands, in the network's order.
unfoldable pub get_connected_port : Connection → ℕ
unfolding htons
get_connected_port c = htons c.peer_port

-- What a call of `recv` comes to: some bytes, or an end of the connection (a result of 0 or -1).
pub data Recv : Type 0 where
  received : List ℕ → Recv
  ended : Recv

-- `recv` writes at the start of the buffer and leaves the rest of it alone.
unfoldable pub overwrite : List ℕ → List ℕ → List ℕ
overwrite buf bytes = bytes ++ drop (length bytes) buf
