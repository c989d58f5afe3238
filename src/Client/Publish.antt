-- ===== src/Client/Publish.antt =====
-- `publish` of cmd/ikago-client/main.go: an ARP request is answered with the hardware address of the
-- device that heard it, and the connection to the server is made anew.
use ikago.Base.{ℕ, [], ◌∷◌, none, some, Result, ok, err, panic, link_layer_type, network_layer_type}
use ikago.Calls.{Act, pure, lift, ◌>>=◌, ◌>>◌}
use ikago.Gopacket.{Layer, Arp, Packet}
use ikago.Device.{RawConn}
use ikago.Packet.{PacketIndicator, src_ip, dst_ip}
use ikago.Packet.Parse.{parse_packet}
use ikago.Layers.{serialize}
use ikago.Client.{World, Client, write_raw, reconnect_up}

-- layers.ARPReply.
abbrev pub arp_reply : ℕ
arp_reply = 2

unfoldable pub new_arp_layer : RawConn → Arp → Arp
new_arp_layer conn a = record {
  addr_type = a.addr_type;
  protocol = a.protocol;
  hw_address_size = a.hw_address_size;
  prot_address_size = a.prot_address_size;
  operation = arp_reply;
  source_hw_address = conn.src_dev.hardware_addr;
  source_prot_address = a.dst_prot_address;
  dst_hw_address = a.source_hw_address;
  dst_prot_address = a.source_prot_address;
}

-- The ARP layer of a packet; another network layer is an error.
unfoldable pub only_arp : PacketIndicator → Result Arp
only_arp ind = elim ind.network_layer [
  | none ↦ panic
  | some (Layer.arp a) ↦ ok a
  | some _ ↦ err network_layer_type
]

-- The new link layer, towards the source of the request.
unfoldable pub new_link_layer : RawConn → Packet → Result Layer
new_link_layer conn packet = elim packet.link_layer [
  | none ↦ panic
  | some (Layer.ethernet e) ↦ ok (
      Layer.ethernet (record {
        src_mac = conn.src_dev.hardware_addr;
        dst_mac = e.src_mac;
        ethernet_type = e.ethernet_type;
      }))
  | some _ ↦ err link_layer_type
]

module _ {U : Type 0} (w : World U) where
  unfoldable pub publish : Packet → RawConn → Act (Client U) (Unit {0})
  unfolding parse_packet only_arp new_link_layer new_arp_layer serialize write_raw reconnect_up
      src_ip dst_ip
  publish packet conn = do
    ind ← lift (parse_packet w.gopacket packet)
    a ← lift (only_arp ind)
    link ← lift (new_link_layer conn packet)
    data_bytes ← lift (serialize w.gopacket (link ∷ Layer.arp (new_arp_layer conn a) ∷ []))
    write_raw w conn data_bytes
    reconnect_up w
    lift (src_ip ind)
    lift (dst_ip ind)
    pure tt
