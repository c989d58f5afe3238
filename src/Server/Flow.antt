-- ===== src/Server/Flow.antt =====
-- A flow through the NAT of cmd/ikago-server/main.go: from the packet of a client, which gets a
-- number, to the answers that find their way back by it.
pub mod Remembering
pub mod Recording
pub mod Returning
pub mod Answered
pub mod Ported
pub mod Samples
mod Tests
use ikago.Base.{ℕ, ◌≡◌, none, some, ok}
use ikago.Addr.{Ip, Addr}
use ikago.Gopacket.{Ipv4, LayerType, Layer, layer_type}
use ikago.Device.{need_ip}
use ikago.Packet.{PacketIndicator}
use ikago.Packet.Nat.{nat_src}
use ikago.Server.Keys.{find}
use ikago.Server.State.{
  Quintuple, NatGuide, NatIndicator, Conn, World, Server, quintuple_key, guide_key,
}
use ikago.Server.Identity.{quintuple_of, guide_of, nat_entry}
use ikago.Server.Invariant.Living.{LiveAt}

-- What the server knows of a flow after a packet of it: the number that its quintuple is mapped to,
-- kept alive at the time of the packet, and the entry of the client under the number's guide.
pub record Recorded (w : World) (now : ℕ) (ind : PacketIndicator) (conn : Conn) (l : Layer)
    (t : Server) : Type 0 where
  pub quintuple : Quintuple
  pub named : quintuple_of ind conn ≡ ok quintuple
  pub value : ℕ
  pub mapped : find quintuple t.pat_map ≡ some value
  pub live : LiveAt now (layer_type l) value t.pools
  pub up_ip : Ip
  pub up : need_ip w.up_conn.src_dev ≡ ok up_ip
  pub guide : NatGuide
  pub guided : guide_of up_ip value ind l ≡ ok (some guide)
  pub entry : NatIndicator
  pub source : nat_entry ind conn ≡ ok entry
  pub found : find guide t.nat ≡ some entry

-- The address of the server under which a client's source is seen from the upstream.
unfoldable pub numbered : Addr → Ip → ℕ → Addr
numbered (Addr.ip_addr ip) up v = Addr.ip_addr up
numbered (Addr.tcp_addr ip port) up v = Addr.tcp_addr up v
numbered (Addr.udp_addr ip port) up v = Addr.udp_addr up v
numbered (Addr.icmp_query_addr ip id) up v = Addr.icmp_query_addr up v

-- What a parser sees of a packet whose network and transport layers were exchanged, where the
-- packet is no ICMPv4 error.
unfoldable pub seen : PacketIndicator → Ipv4 → Layer → PacketIndicator
seen ind ip (Layer.icmpv4 m) = record ind {
  network_layer = some (Layer.ipv4 ip);
  transport_layer = some (Layer.icmpv4 m);
  icmpv4_indicator = some (record { layer = m; emb_ipv4 = none; emb_transport = none });
}
seen ind ip l = record ind {
  network_layer = some (Layer.ipv4 ip);
  transport_layer = some l;
  icmpv4_indicator = none;
}
