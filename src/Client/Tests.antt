-- ===== src/Client/Tests.antt =====
-- A console that is heard, and an answer that comes back to it.
use ikago.Base.{
  ◌≡◌, refl, sym, ap, ◌∙◌, text_eq, lookup, Bytes, List, [], ◌∷◌, ◌++◌, false, none, some, ok,
  length, replicate,
}
use ikago.Addr.{Ip, ip_string, decimal}
use ikago.Gopacket.{Layer, EthernetType, Ipv4, Packet, layer_type}
use ikago.Device.{Device, RawConn}
use ikago.Packet.{PacketIndicator, src_ip, dst_ip, src_hardware_addr}
use ikago.Packet.Parse.{parse_packet, parse_emb_packet}
use ikago.Samples.{console_ip, game_ip, server_ip, flat, ipv4_header, udp_header, udp_packet}
use ikago.Client.{World, Client}
use ikago.Client.Listen.{hardware_addr_of, handle_listen}
use ikago.Client.Upstream.{deliver, handle_upstream}
use ikago.Client.Known.{Heard, handle_upstream-Heard}
use ikago.Client.Others.{handle_listen-Has}
use ikago.Client.Delivered.{Carried, handle_upstream-Carried}

abbrev device : Device
device = record {
  name = [];
  alias = [];
  ip_addrs = server_ip ∷ [];
  hardware_addr = replicate 6 9;
  is_loop = false;
}

abbrev listening : RawConn
listening = record { src_dev = device; dst_dev = device }

abbrev console_mac : Bytes
console_mac = replicate 6 5

-- The console's packet, in a frame.
abbrev frame : Packet
frame = record udp_packet {
  link_layer = some (
      Layer.ethernet (record {
        src_mac = console_mac;
        dst_mac = replicate 6 9;
        ethernet_type = EthernetType.ipv4;
      }));
}

-- An answer to it, as the server sends it.
abbrev answer_header : Ipv4
answer_header = record ipv4_header { src_ip = game_ip; dst_ip = console_ip }

abbrev answer : Packet
answer = record udp_packet { network_layer = some (Layer.ipv4 answer_header) }

-- A connection to the server that takes everything.
abbrev world : World (List Bytes)
world = record {
  gopacket = record flat { new_packet = λ b t. answer };
  fragment = 1500;
  link = record {
    write = λ b sent. (ok (length b), sent ++ b ∷ []);
    reconnect = λ sent. (ok tt, sent);
  };
  refuses = λ written conn b. none;
}

abbrev fresh : Client (List Bytes)
fresh = record { up_conn = []; nat = []; monitor = none; dns = []; written = [] }

abbrev heard : Client (List Bytes)
heard = (handle_listen world 60 frame listening fresh).1

listens : handle_listen world 60 frame listening fresh ≡ (ok tt, heard)
unfolding handle_listen parse_packet hardware_addr_of
listens = refl

abbrev answered : Client (List Bytes)
answered = (handle_upstream world 61 (69 ∷ []) heard).1

answers : handle_upstream world 61 (69 ∷ []) heard ≡ (ok tt, answered)
unfolding handle_upstream handle_listen parse_packet parse_emb_packet deliver decimal
answers = refl

handle_upstream-Carried_example : Carried world (69 ∷ []) heard answered
handle_upstream-Carried_example = handle_upstream-Carried world 61 69 [] heard answered answers

abbrev heard_indicator : PacketIndicator
heard_indicator = record {
  packet = some frame;
  link_layer = frame.link_layer;
  network_layer = some (Layer.ipv4 ipv4_header);
  transport_layer = some (Layer.udp udp_header);
  icmpv4_indicator = none;
  application_layer = none;
  dns_indicator = none;
}

abbrev answer_indicator : PacketIndicator
answer_indicator = record {
  packet = some answer;
  link_layer = none;
  network_layer = some (Layer.ipv4 answer_header);
  transport_layer = some (Layer.udp udp_header);
  icmpv4_indicator = none;
  application_layer = none;
  dns_indicator = none;
}

handle_upstream-Heard_example :
    (h : Heard console_ip console_mac listening fresh heard) × (handle_upstream world 61
        (69 ∷ [])
        heard
      ≡ deliver world 61 answer_indicator h.entry heard)
unfolding parse_packet parse_emb_packet hardware_addr_of src_ip dst_ip src_hardware_addr layer_type
handle_upstream-Heard_example =
    handle_upstream-Heard world 60 61 frame listening heard_indicator answer_indicator
      (Layer.ipv4 ipv4_header) console_mac console_ip 69 [] fresh heard heard refl refl (λ e. cc)
      refl refl listens refl refl refl

-- A packet of the game's server, heard on the same device.
abbrev other_frame : Packet
other_frame = record frame { network_layer = some (Layer.ipv4 answer_header) }

abbrev other_indicator : PacketIndicator
other_indicator = record heard_indicator {
  packet = some other_frame;
  network_layer = some (Layer.ipv4 answer_header);
}

other_parsed : parse_packet world.gopacket other_frame ≡ ok other_indicator
unfolding parse_packet
other_parsed = refl

from_game :
    (ind : PacketIndicator) (ip : Ip)
    → parse_packet world.gopacket other_frame ≡ ok ind
    → src_ip ind ≡ ok ip
    → text_eq (ip_string console_ip) (ip_string ip) ≡ false
unfolding src_ip ip_string decimal
from_game ind ip hp hi =
    let same : other_indicator ≡ ind =
      (let f : ok other_indicator ≡ ok ind = sym other_parsed ∙ hp in cc) in
    let game : game_ip ≡ ip = (let f : ok game_ip ≡ ok ip = ap src_ip same ∙ hi in cc) in
    rw (← game) refl

handle_listen-Has_example :
    lookup (ip_string console_ip) (handle_listen world 62 other_frame listening heard).1.nat
    ≡ some (record { src_hardware_addr = console_mac; conn = listening })
unfolding handle_listen parse_packet hardware_addr_of ip_string decimal
handle_listen-Has_example =
    handle_listen-Has world (ip_string console_ip)
      (some (record { src_hardware_addr = console_mac; conn = listening })) 62 other_frame listening
      heard from_game refl
