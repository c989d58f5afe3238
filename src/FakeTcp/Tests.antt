-- ===== src/FakeTcp/Tests.antt =====
-- A connection over a loopback device, and a client that sends SYN.
use ikago.Base.{
  ℕ, ◌+◌, ◌-◌, ◌≤◌, ◌<◌, ◌≡◌, refl, sym, ◌⊎◌, true, false, [], ◌∷◌, replicate, none, some, ok, err,
  timeout, u32_mod, length, add32, arith,
}
use ikago.Addr.{Addr, string, ip_string}
use ikago.Addr.Decimal.{decimal}
use ikago.Gopacket.{Layer, Tcp, Packet, SumsKeep}
use ikago.Device.{Device}
use ikago.Packet.{PacketIndicator, src_ip, src_hardware_addr}
use ikago.Packet.Nat.{network_payload}
use ikago.Crypt.{Crypt}
use ikago.Fragment.Defrag.{new_easy_defragmenter, append_original, insert}
use ikago.FakeTcp.{World, FakeTcpConn, client_or_new}
use ikago.FakeTcp.Handshake.{handshake_syn, handshake_synack}
use ikago.FakeTcp.Handshake.Numbers.{Shaken, back_to, handshake_synack-Shaken}
use ikago.FakeTcp.Loop.{read_packets}
use ikago.FakeTcp.Transfer.{next_ack, write_to}
use ikago.FakeTcp.Transfer.Counters.{next_ack-max}
use ikago.FakeTcp.Transfer.Writing.{Written, write_to-Written}
use ikago.Samples.{flat, console_ip, server_ip, ipv4_header, tcp_header, udp_packet, fragment_of}

abbrev world : World
world = record { gopacket = flat; random = λ n. ok (replicate n 0); refuses = λ sent packet. none }

abbrev loop_device : Device
loop_device = record {
  name = [];
  alias = [];
  ip_addrs = server_ip ∷ [];
  hardware_addr = [];
  is_loop = true;
}

abbrev fresh : FakeTcpConn
fresh = record {
  conn = record { src_dev = loop_device; dst_dev = loop_device };
  defrag = new_easy_defragmenter;
  src_port = 4000;
  dst_addr = some (console_ip, 5000);
  crypt = Crypt.plain;
  mtu = 1500;
  is_connected = false;
  is_reconnected = false;
  is_closed = false;
  clients = [];
  id = 3;
  sent = [];
}

abbrev peer : Addr
peer = Addr.tcp_addr console_ip 5000

abbrev greeted : FakeTcpConn
greeted = (handshake_syn world fresh).1

sums : SumsKeep world.gopacket
sums = (λ ip t t' e. sym (let f = e in cc), λ ip u u' e. sym (let f = e in cc))

abbrev syn_packet : PacketIndicator
syn_packet = record (fragment_of ipv4_header) {
  link_layer = some (Layer.loopback (record { is_ipv4 = true }));
  transport_layer = some (Layer.tcp (record tcp_header { seq = 70; syn_flag = true }));
}

abbrev answered : FakeTcpConn
answered = (handshake_synack world syn_packet fresh).1

answers_syn : handshake_synack world syn_packet fresh ≡ (ok tt, answered)
unfolding handshake_synack
answers_syn = refl

abbrev syn_header : Tcp
syn_header = record tcp_header { seq = 70; syn_flag = true }

handshake_synack-Shaken_example :
    Shaken world
      (string peer)
      (back_to syn_header console_ip [])
      (record (client_or_new (string peer) fresh) { ack = add32 70 1 })
      true
      true
      fresh
      answered
handshake_synack-Shaken_example =
    handshake_synack-Shaken world syn_packet fresh answered syn_header console_ip [] tt sums refl
      (unfold src_ip in refl) (unfold src_hardware_addr in refl) answers_syn

abbrev wrote : FakeTcpConn
wrote = (write_to world (7 ∷ 8 ∷ []) peer greeted).1

writes : write_to world (7 ∷ 8 ∷ []) peer greeted ≡ (ok 2, wrote)
unfolding write_to handshake_syn string ip_string decimal
writes = refl

write_to-Written_example :
    (◌≡◌ {A = ℕ} 2 (length {A = ℕ} (7 ∷ 8 ∷ []))) × Written world (7 ∷ 8 ∷ []) peer greeted wrote
write_to-Written_example = write_to-Written world (7 ∷ 8 ∷ []) peer greeted wrote 2 sums writes

next_ack-max_example :
    (100 + 10 < u32_mod
      → (50 ≤ next_ack 100 10 50)
        × (100 + 10 ≤ next_ack 100 10 50)
        × ((next_ack 100 10 50 ≡ 50) ⊎ (next_ack 100 10 50 ≡ 100 + 10)))
    × (u32_mod ≤ 100 + 10 → next_ack 100 10 50 ≡ 100 + 10 - u32_mod)
next_ack-max_example = next_ack-max 100 10 50 (omega arith) (omega arith)

-- A fragment is held back, and an error of the handle ends the loop.
abbrev fragment_packet : Packet
fragment_packet = record udp_packet {
  layers = Layer.fragment [] ∷ [];
  network_layer =
      some (Layer.ipv4 (record ipv4_header { more_fragments = true; payload = replicate 8 0 }));
  transport_layer = none;
}

still_waits : (read_packets world ((1, ok fragment_packet) ∷ []) fresh).0 ≡ ok none
unfolding read_packets append_original ip_string decimal new_easy_defragmenter network_payload
    insert
still_waits = refl

handle_fails :
    (read_packets world ((1, ok fragment_packet) ∷ (2, err timeout) ∷ []) fresh).0 ≡ err timeout
unfolding read_packets append_original ip_string decimal new_easy_defragmenter network_payload
    insert
handle_fails = refl
