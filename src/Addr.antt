-- ===== src/Addr.antt =====
-- internal/addr/addr.go, and the parts of Go's package net that the program compares: IPv4
-- addresses, endpoints, and the text that `String()` makes of them, which is the key of every map
-- from endpoints. An address is its four octets; IPv6 texts are not modelled (README, Limitations).
pub mod Decimal
pub mod Text
use ikago.Base.{ℕ, Bytes, List, ◌∷◌, [], ◌++◌, Option, none, some}
unfoldable pub use Decimal.{decimal}

-- net.IP, for an IPv4 address.
pub record Ip : Type 0 where
  pub a : ℕ
  pub b : ℕ
  pub c : ℕ
  pub d : ℕ

-- net.Addr: the implementations that the program builds.
pub data Addr : Type 0 where
  ip_addr : Ip → Addr
  tcp_addr : Ip → ℕ → Addr
  udp_addr : Ip → ℕ → Addr
  icmp_query_addr : Ip → ℕ → Addr

unfoldable pub ip_string : Ip → Bytes
ip_string ip = decimal ip.a ++ b'.' ∷ (decimal ip.b ++ b'.' ∷ (decimal ip.c ++ b'.' ∷ decimal ip.d))

-- `formatIP`, at a pointer that may be nil.
pub format_ip : Option Ip → Bytes
format_ip none = []
format_ip (some ip) = ip_string ip

-- The method `String` of each address.
unfoldable pub string : Addr → Bytes
string (Addr.ip_addr ip) = ip_string ip
string (Addr.tcp_addr ip port) = ip_string ip ++ b':' ∷ decimal port
string (Addr.udp_addr ip port) = ip_string ip ++ b':' ∷ decimal port
string (Addr.icmp_query_addr ip id) = format_ip (some ip) ++ b'@' ∷ decimal id

-- `MultiTCPAddr.String`: the texts, joined by commas.
pub multi_string : List Addr → Bytes
multi_string [] = []
multi_string (x ∷ []) = string x
multi_string (x ∷ y ∷ rest) = string x ++ b',' ∷ multi_string (y ∷ rest)
