-- ===== src/Server/Inbound/Destination.antt =====
-- The packets that `handleUpstream` of cmd/ikago-server/main.go makes for a client: their destination
-- is the source that the client's own packet had.
use ikago.Base.{
  ℕ, ◌≡◌, refl, sym, ap, ◌∙◌, false, List, [], ◌∷◌, none, some, Result, ok, ◌>>=◌, bind-ok,
}
use ikago.Addr.{Addr}
use ikago.Gopacket.{Gopacket, Layer, Ipv4, Tcp, Udp, Icmpv4, SumsKeep}
use ikago.Packet.{PacketIndicator}
use ikago.Packet.Nat.{nat_src, nat_dst}
use ikago.Packet.Nat.Ends.{ends-tcp, ends-udp, ends-query}
use ikago.Server.State.{NatIndicator, addr_ip, emb_src_ip}
use ikago.Server.Identity.{is_error_of}
use ikago.Server.Inbound.{
  tcp_port, udp_port, query_id, client_transport, client_network, client_layers,
}
use ikago.Server.Outbound.{with_pseudo, sum_under, sum_under-ok, payload_bytes}
use ikago.Server.Outbound.Source.{without_id, query-seen}
use ikago.Server.Invariant.Mapping.{own_query}
use ikago.Server.Flow.{seen}

tcp_port-ok : (a : Addr) (p : ℕ) → tcp_port a ≡ ok p → Addr.tcp_addr (addr_ip a) p ≡ a
unfolding tcp_port addr_ip
tcp_port-ok (Addr.tcp_addr ip port) p e = let same : p ≡ port = cc in rw same refl
tcp_port-ok _ p e = cc

udp_port-ok : (a : Addr) (p : ℕ) → udp_port a ≡ ok p → Addr.udp_addr (addr_ip a) p ≡ a
unfolding udp_port addr_ip
udp_port-ok (Addr.udp_addr ip port) p e = let same : p ≡ port = cc in rw same refl
udp_port-ok _ p e = cc

query_id-ok : (a : Addr) (p : ℕ) → query_id a ≡ ok p → Addr.icmp_query_addr (addr_ip a) p ≡ a
unfolding query_id addr_ip
query_id-ok (Addr.icmp_query_addr ip id) p e = let same : p ≡ id = cc in rw same refl
query_id-ok _ p e = cc

client_network-ok :
    (ni : NatIndicator) (frag : PacketIndicator) (h ip : Ipv4)
    → frag.network_layer ≡ some (Layer.ipv4 h)
    → client_network ni frag ≡ ok ip
    → record h { dst_ip = addr_ip ni.emb_src } ≡ ip
unfolding client_network emb_src_ip
client_network-ok ni frag h ip hn e = let f = rw hn at e in cc

-- The layers that the client gets, where they were made.
record Made (g : Gopacket) (ni : NatIndicator) (frag : PacketIndicator) (l : Layer)
    (ls : List Layer) : Type 0 where
  ip : Ipv4
  network : client_network ni frag ≡ ok ip
  new : Layer
  transport : client_transport g ni frag l ≡ ok new
  all : ls ≡ Layer.ipv4 ip ∷ with_pseudo ip new ∷ Layer.payload (payload_bytes g frag) ∷ []

client_layers-ok :
    (g : Gopacket) (ni : NatIndicator) (frag : PacketIndicator) (l : Layer) (ls : List Layer)
    → SumsKeep g
    → client_layers g ni frag (some l) ≡ ok ls
    → Made g ni frag l ls
unfolding client_layers
client_layers-ok g ni frag l ls sums e =
    let (new, ht, e1) = bind-ok (client_transport g ni frag l) _ e in
    let (ip, hn, e2) = bind-ok (client_network ni frag) _ e1 in
    let (summed, hs, e3) = bind-ok (sum_under g ip new) _ e2 in
    let last : Layer.ipv4 ip ∷ summed ∷ Layer.payload (payload_bytes g frag) ∷ [] ≡ ls = cc in
    record {
      ip = ip;
      network = hn;
      new = new;
      transport = ht;
      all =
          sym last
          ∙ ap (λ x. Layer.ipv4 ip ∷ x ∷ Layer.payload (payload_bytes g frag) ∷ [])
              (sum_under-ok g ip new summed sums hs);
    }

-- The source, but for the Id of a query, which both ends share.
abbrev pub origin : PacketIndicator → Result Addr
origin ind = do a ← nat_src ind; ok (without_id a)

origins :
    (p q : PacketIndicator) (a b : Addr)
    → nat_src p ≡ ok a
    → nat_src q ≡ ok b
    → without_id a ≡ without_id b
    → origin p ≡ origin q
origins p q a b hp hq same = rw (hp, hq, same) refl

-- The packet that `handleUpstream` makes for the client of a TCP or UDP packet or an ICMPv4 query is
-- addressed to the source that the entry of `nat` has, and its own source, the Id of a query aside,
-- is as it was. (Recording the network layer in a transport layer is taken to change nothing else.)
pub client_layers-Destination :
    (g : Gopacket) (ni : NatIndicator) (frag : PacketIndicator) (h : Ipv4) (l : Layer)
    (ls : List Layer)
    → SumsKeep g
    → frag.network_layer ≡ some (Layer.ipv4 h)
    → frag.transport_layer ≡ some l
    → is_error_of frag l ≡ ok false
    → client_layers g ni frag (some l) ≡ ok ls
    → (ip : Ipv4) × (l' : Layer) × (ls
        ≡ Layer.ipv4 ip ∷ l' ∷ Layer.payload (payload_bytes g frag) ∷ [])
      × (nat_dst (seen frag ip l') ≡ ok ni.emb_src)
      × (origin (seen frag ip l') ≡ origin frag)
unfolding client_transport seen
client_layers-Destination g ni frag h (Layer.tcp x) ls sums hn hl own e =
    let m = client_layers-ok g ni frag (Layer.tcp x) ls sums e in
    let at = client_network-ok ni frag h m.ip hn m.network in
    let (port, hp, e1) = bind-ok (tcp_port ni.emb_src) _ m.transport in
    let to = tcp_port-ok ni.emb_src port hp in
    let made_of : Layer.tcp (record x { dst_port = port }) ≡ m.new = cc in
    let y : Tcp = record x { dst_port = port; pseudo = some m.ip } in
    let (s, d) = ends-tcp frag x h hl hn in
    let (s', d') = ends-tcp (seen frag m.ip (Layer.tcp y)) y m.ip refl refl in
    (
      m.ip,
      Layer.tcp y,
      m.all
          ∙ ap
              (λ z.
                Layer.ipv4 m.ip ∷ with_pseudo m.ip z ∷ Layer.payload (payload_bytes g frag) ∷ [])
              (sym made_of),
      d' ∙ ap (λ (z : Ipv4). ok (Addr.tcp_addr z.dst_ip port)) (sym at) ∙ ap (λ z. ok z) to,
      origins _ _ _ _ s' (s ∙ ap (λ (z : Ipv4). ok (Addr.tcp_addr z.src_ip x.src_port)) at) refl,
    )
client_layers-Destination g ni frag h (Layer.udp x) ls sums hn hl own e =
    let m = client_layers-ok g ni frag (Layer.udp x) ls sums e in
    let at = client_network-ok ni frag h m.ip hn m.network in
    let (port, hp, e1) = bind-ok (udp_port ni.emb_src) _ m.transport in
    let to = udp_port-ok ni.emb_src port hp in
    let made_of : Layer.udp (record x { dst_port = port }) ≡ m.new = cc in
    let y : Udp = record x { dst_port = port; pseudo = some m.ip } in
    let (s, d) = ends-udp frag x h hl hn in
    let (s', d') = ends-udp (seen frag m.ip (Layer.udp y)) y m.ip refl refl in
    (
      m.ip,
      Layer.udp y,
      m.all
          ∙ ap
              (λ z.
                Layer.ipv4 m.ip ∷ with_pseudo m.ip z ∷ Layer.payload (payload_bytes g frag) ∷ [])
              (sym made_of),
      d' ∙ ap (λ (z : Ipv4). ok (Addr.udp_addr z.dst_ip port)) (sym at) ∙ ap (λ z. ok z) to,
      origins _ _ _ _ s' (s ∙ ap (λ (z : Ipv4). ok (Addr.udp_addr z.src_ip x.src_port)) at) refl,
    )
client_layers-Destination g ni frag h (Layer.icmpv4 x) ls sums hn hl own e =
    let m = client_layers-ok g ni frag (Layer.icmpv4 x) ls sums e in
    let at = client_network-ok ni frag h m.ip hn m.network in
    let (i, hi, q) = own_query frag x own in
    let (id, hp, e1) = bind-ok (query_id ni.emb_src) _ (rw (hi, q) at m.transport) in
    let to = query_id-ok ni.emb_src id hp in
    let made_of : Layer.icmpv4 (record i.layer { id = id }) ≡ m.new = cc in
    let y : Icmpv4 = record i.layer { id = id } in
    let (s, d) = ends-query frag x i h hl hi q hn in
    let (s', d') =
      ends-query (seen frag m.ip (Layer.icmpv4 y)) y
        (record { layer = y; emb_ipv4 = none; emb_transport = none }) m.ip refl refl
        (query-seen i y refl q) refl in
    (
      m.ip,
      Layer.icmpv4 y,
      m.all
          ∙ ap
              (λ z.
                Layer.ipv4 m.ip ∷ with_pseudo m.ip z ∷ Layer.payload (payload_bytes g frag) ∷ [])
              (sym made_of),
      d' ∙ ap (λ (z : Ipv4). ok (Addr.icmp_query_addr z.dst_ip id)) (sym at) ∙ ap (λ z. ok z) to,
      origins _ _ _ _ s' (s ∙ ap (λ (z : Ipv4). ok (Addr.icmp_query_addr z.src_ip i.layer.id)) at)
          refl,
    )
client_layers-Destination g ni frag h _ ls sums hn hl own e =
    let m = client_layers-ok g ni frag _ ls sums e in absurd (let f = m.transport in cc)
