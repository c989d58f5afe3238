-- ===== src/Server/Flow/Tests.antt =====
-- A flow of a console through the NAT of cmd/ikago-server/main.go, as a test.
use ikago.Base.{ℕ, ◌+◌, ◌≡◌, refl, sym, [], ◌∷◌, none, some, ok}
use ikago.Addr.{Addr, string, ip_string, decimal}
use ikago.Gopacket.{LayerType, Layer, Udp, Ipv4, Icmpv4, Icmpv4Type, layer_type, SumsKeep}
use ikago.Packet.{PacketIndicator}
use ikago.Samples.{
  console_ip, game_ip, server_ip, ipv4_header, udp_header, empty_packet, icmpv4_header,
}
use ikago.Server.State.{
  Server, NatIndicator, start, quintuple_key, guide_key, quintuple_eq, guide_eq,
}
use ikago.Server.Keys.{put, find}
use ikago.Server.Listen.{handle_listen}
use ikago.Server.Invariant.{Inv, start-Inv}
use ikago.Server.Dist.{scan}
use ikago.Server.Identity.{is_error_of, quintuple_of, guide_of, nat_entry, upstream_guide}
use ikago.Server.Upstream.{dispatch, answer, keep_upstream}
use ikago.Packet.Nat.{nat_src, nat_dst}
use ikago.Server.Invariant.Living.{LiveAt}
use ikago.Server.Flow.{Recorded, numbered, seen}
use ikago.Server.Flow.Recording.{handle_listen-Recorded}
use ikago.Server.Flow.Returning.{dispatch-Recorded}
use ikago.Server.Flow.Answered.{dispatch-error}
use ikago.Server.Flow.Ported.{port_for, keep_upstream-Ported}
use ikago.Server.Outbound.{new_network, sent_transport, payload_bytes}
use ikago.Server.Outbound.Source.{target, sent-Source}
use ikago.Server.Inbound.{client_layers}
use ikago.Server.Inbound.Destination.{origin, client_layers-Destination}
use ikago.Icmp4.{is_query, query_kind}
use ikago.Server.Flow.Samples.{world, client, udp_indicator, parsed, world-FragsBare, now}
use ikago.Server.Invariant.Reaching.{Reach, Step, Reach-Inv}

Reach-Inv_example : Inv world (handle_listen world 60 (0 ∷ []) client (start none)).1
Reach-Inv_example =
    Reach-Inv world _ world-FragsBare
      (Reach.later (Reach.fresh none) (Step.listens 60 (0 ∷ []) client))

abbrev after : Server
after = (handle_listen world now (0 ∷ []) client (start none)).1

listens : handle_listen world now (0 ∷ []) client (start none) ≡ (ok tt, after)
unfolding handle_listen start scan find
listens = refl

handle_listen-Recorded_example :
    Recorded world now udp_indicator client (Layer.udp udp_header) after
unfolding udp_indicator is_error_of
handle_listen-Recorded_example =
    handle_listen-Recorded world now 0 [] client udp_indicator (Layer.udp udp_header) (start none)
      after world-FragsBare (start-Inv world none) (parsed (0 ∷ [])) refl refl listens

-- The flow has the first UDP port.
flow : Recorded world now udp_indicator client (Layer.udp udp_header) after
unfolding handle_listen start scan find put quintuple_of guide_of nat_entry nat_src udp_indicator
    quintuple_eq ip_string decimal guide_eq
flow = record {
  quintuple = record {
    src = string (Addr.udp_addr console_ip 5000);
    dst = string client.remote_addr;
    protocol = LayerType.udp;
  };
  named = refl;
  value = 49152;
  mapped = refl;
  live = LiveAt.live 0 refl refl;
  up_ip = server_ip;
  up = refl;
  guide = record { src = string (Addr.udp_addr server_ip 49152); protocol = LayerType.udp };
  guided = refl;
  entry = record {
    src = client.remote_addr;
    emb_src = Addr.udp_addr console_ip 5000;
    conn = client;
  };
  source = refl;
  found = refl;
}

-- The answer of the game's server.
abbrev back_header : Ipv4
back_header = record ipv4_header { src_ip = game_ip; dst_ip = server_ip }

abbrev back_udp : Udp
back_udp = record udp_header { src_port = 53; dst_port = 49152 }

abbrev back : PacketIndicator
unfolding udp_indicator
back = record udp_indicator {
  network_layer = some (Layer.ipv4 back_header);
  transport_layer = some (Layer.udp back_udp);
}

abbrev entry : NatIndicator
entry = record { src = client.remote_addr; emb_src = Addr.udp_addr console_ip 5000; conn = client }

dispatch-Recorded_example :
    dispatch world (now + 1) back (back ∷ []) after
    ≡ answer world (now + 1) back (back ∷ []) entry after
unfolding udp_indicator is_error_of nat_src nat_dst numbered flow layer_type
dispatch-Recorded_example =
    dispatch-Recorded world now (now + 1) udp_indicator back client (Layer.udp udp_header)
      (Layer.udp back_udp) (Addr.udp_addr console_ip 5000) after (back ∷ []) flow refl refl refl
      refl refl refl

-- An ICMPv4 error about the console's packet.
abbrev unreachable : Icmpv4
unreachable = icmpv4_header Icmpv4Type.destination_unreachable

abbrev error_back : PacketIndicator
error_back = record {
  packet = some empty_packet;
  link_layer = none;
  network_layer = some (Layer.ipv4 back_header);
  transport_layer = some (Layer.icmpv4 unreachable);
  icmpv4_indicator = some (record {
    layer = unreachable;
    emb_ipv4 = some (record ipv4_header { src_ip = server_ip });
    emb_transport = some (Layer.udp (record udp_header { src_port = 49152 }));
  });
  application_layer = none;
  dns_indicator = none;
}

dispatch-error_example :
    dispatch world (now + 1) error_back (error_back ∷ []) after ≡ (ok tt, after)
unfolding nat_dst is_query query_kind
dispatch-error_example =
    dispatch-error world (now + 1) error_back (error_back ∷ []) unreachable
      (Addr.udp_addr server_ip 49152) after
      (Reach-Inv world after world-FragsBare
        (Reach.later (Reach.fresh none) (Step.listens now (0 ∷ []) client)))
      refl refl (λ ip id e. cc)

keep_upstream-Ported_example :
    ((keep_upstream (now + 1) back after).0 ≡ ok tt)
    × (q : ℕ) × (port_for (Layer.udp back_udp) entry.emb_src ≡ ok q)
unfolding udp_indicator nat_dst upstream_guide layer_type flow
keep_upstream-Ported_example =
    keep_upstream-Ported world (now + 1) back (Layer.udp back_udp) (Addr.udp_addr server_ip 49152)
      flow.guide entry after
      (Reach-Inv world after world-FragsBare
        (Reach.later (Reach.fresh none) (Step.listens now (0 ∷ []) client)))
      tt refl refl refl flow.found

keeps : SumsKeep world.gopacket
keeps = (λ ip t t' e. sym (let f = e in cc), λ ip u u' e. sym (let f = e in cc))

abbrev sent_header : Ipv4
sent_header = record ipv4_header { src_ip = server_ip }

abbrev sent_udp : Udp
sent_udp = record udp_header { src_port = 49152; pseudo = some sent_header }

sent-Source_example :
    (nat_src (seen udp_indicator sent_header (Layer.udp sent_udp))
      ≡ ok (Addr.udp_addr server_ip 49152))
    × (target (seen udp_indicator sent_header (Layer.udp sent_udp)) ≡ target udp_indicator)
unfolding udp_indicator is_error_of nat_src new_network sent_transport numbered
sent-Source_example =
    sent-Source world 49152 udp_indicator ipv4_header sent_header server_ip
      (Addr.udp_addr console_ip 5000) (Layer.udp udp_header) (Layer.udp sent_udp) keeps refl refl
      refl refl refl refl refl

abbrev client_ipv4 : Ipv4
client_ipv4 = record back_header { dst_ip = console_ip }

client_layers-Destination_example :
    (ip : Ipv4) × (l : Layer) × (Layer.ipv4 client_ipv4
        ∷ Layer.udp (record back_udp { dst_port = 5000; pseudo = some client_ipv4 })
        ∷ Layer.payload []
        ∷ []
      ≡ Layer.ipv4 ip ∷ l ∷ Layer.payload (payload_bytes world.gopacket back) ∷ [])
    × (nat_dst (seen back ip l) ≡ ok entry.emb_src)
    × (origin (seen back ip l) ≡ origin back)
unfolding udp_indicator is_error_of client_layers payload_bytes
client_layers-Destination_example =
    client_layers-Destination world.gopacket entry back back_header (Layer.udp back_udp)
      (Layer.ipv4 client_ipv4
        ∷ Layer.udp (record back_udp { dst_port = 5000; pseudo = some client_ipv4 })
        ∷ Layer.payload []
        ∷ [])
      keeps refl refl refl refl
