-- ===== src/Shared.antt =====
-- shared/GeneralTypes.h and the data types of shared/sharedUtils.h: addresses, the states of a
-- socket, the lists of addresses, and the numbers that the program fixes.
pub mod Options
pub mod Listener
pub mod Message
pub mod Disk
pub mod Connection
pub mod Wire
pub mod Torrent
use p2p_network.Base.{
  ℕ, ◌≡◌, refl, ap, ◌↔◌, Bool, true, ◌&&◌, List, arith, ◌==◌, Text, text_eq, text_eq_iff,
  text_eq_refl, ==_refl,
}

abbrev pub server_default_port : ℕ
server_default_port = 59095

abbrev pub client_default_port : ℕ
client_default_port = 59096

abbrev pub default_segment_size : ℕ
default_segment_size = 8000

-- `port` is a `uint32_t`.
pub record IpAddress : Type 0 where
  pub ip : Text
  pub port : ℕ

abbrev pub address_eq : IpAddress → IpAddress → Bool
address_eq a b = text_eq a.ip b.ip && a.port == b.port

pub data SocketState : Type 0 where
  error cannot_connect invalid_address closed opened timed_out sent recvd : SocketState

pub record Ips : Type 0 where
  pub ipv4s : List Text
  pub ipv6s : List Text

pub address_eq_refl : (a : IpAddress) → address_eq a a ≡ true
address_eq_refl a = rw (text_eq_refl a.ip, ==_refl a.port)

pub address_eq_iff : (a b : IpAddress) → (address_eq a b ≡ true) ↔ (a ≡ b)
address_eq_iff a b = ground (arith, text_eq_iff a.ip b.ip)
