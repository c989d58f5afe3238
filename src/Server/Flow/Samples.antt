-- ===== src/Server/Flow/Samples.antt =====
-- A console's flow, for the tests.
use ikago.Base.{ℕ, ◌*◌, ◌^◌, ◌≡◌, refl, sym, ap, ◌∙◌, Bytes, [], ◌∷◌, none, some, true, false, ok}
use ikago.Addr.{Ip, Addr}
use ikago.Gopacket.{Gopacket, Layer, Packet}
use ikago.Device.{Device}
use ikago.Packet.{PacketIndicator, is_frag, need_ipv4}
use ikago.Packet.Parse.{parse_emb_packet, parse_packet}
use ikago.Samples.{console_ip, game_ip, server_ip, flat, ipv4_header, udp_header, udp_packet}
use ikago.Server.State.{World, Conn, quintuple_key, guide_key}
use ikago.Server.Invariant.{FragsBare}

abbrev pub device : Ip → Device
device ip = record {
  name = [];
  alias = [];
  ip_addrs = ip ∷ [];
  hardware_addr = [];
  is_loop = false;
}

abbrev pub decoding : Packet → Gopacket
decoding p = record flat { new_packet = λ b t. p }

abbrev pub world : World
world = record {
  gopacket = decoding udp_packet;
  fragment = 1500;
  up_conn = record { src_dev = device server_ip; dst_dev = device game_ip };
  refuses_up = λ sent b. none;
  refuses_client = λ sent conn b. none;
}

abbrev pub client : Conn
client = record { pointer = 1; remote_addr = Addr.tcp_addr console_ip 40000 }

unfoldable pub udp_indicator : PacketIndicator
udp_indicator = record {
  packet = some udp_packet;
  link_layer = none;
  network_layer = some (Layer.ipv4 ipv4_header);
  transport_layer = some (Layer.udp udp_header);
  icmpv4_indicator = none;
  application_layer = none;
  dns_indicator = none;
}

pub parsed : (b : Bytes) → parse_emb_packet world.gopacket b ≡ ok udp_indicator
unfolding parse_emb_packet parse_packet udp_indicator
parsed b = refl

pub world-FragsBare : FragsBare world.gopacket
unfolding is_frag need_ipv4 udp_indicator
world-FragsBare b ind e h =
    let same : udp_indicator ≡ ind =
      (let f : ok udp_indicator ≡ ok ind = sym (parsed b) ∙ e in cc) in
    absurd (let k : is_frag udp_indicator ≡ ok true = ap is_frag same ∙ h in cc)

abbrev pub now : ℕ
now = 31 * 10 ^ 9
