-- ===== src/Device.antt =====
-- The structs of internal/pcap/device.go and raw.go that carry addresses. A raw connection's pcap
-- handle is not modelled: what is written to it is a list of packets in the callers.
use ikago.Base.{Bool, true, false, Bytes, List, [], ◌∷◌, Option, none, some, Result, deref}
use ikago.Addr.{Ip}

pub record Device : Type 0 where
  pub name : Bytes
  pub alias : Bytes
  pub ip_addrs : List Ip
  pub hardware_addr : Bytes
  pub is_loop : Bool

-- `IPAddr`: the first address, or nil.
unfoldable pub ip_addr : Device → Option Ip
ip_addr dev = elim dev.ip_addrs [ [] ↦ none | ip ∷ rest ↦ some ip ]

-- `dev.IPAddr().IP`.
unfoldable pub need_ip : Device → Result Ip
unfolding ip_addr
need_ip dev = deref (ip_addr dev)

-- `FindLoopDev`.
pub find_loop_dev : List Device → Option Device
find_loop_dev [] = none
find_loop_dev (dev ∷ devs) = elim dev.is_loop [ true ↦ some dev | false ↦ find_loop_dev devs ]

pub record RawConn : Type 0 where
  pub src_dev : Device
  pub dst_dev : Device

-- `RawConn.IsLoop`.
unfoldable pub is_loop : RawConn → Bool
is_loop c = c.dst_dev.is_loop
