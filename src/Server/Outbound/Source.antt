-- ===== src/Server/Outbound/Source.antt =====
-- The packets that `handleListen` of cmd/ikago-server/main.go makes, as the upstream sees them: their
-- source is the server's address with the distributed number.
use ikago.Base.{ℕ, ◌≡◌, refl, sym, ap, ◌∙◌, true, false, none, some, Result, ok, ◌>>=◌, bind-ok}
use ikago.Addr.{Ip, Addr}
use ikago.Gopacket.{Layer, Ipv4, Tcp, Udp, Icmpv4, SumsKeep}
use ikago.Device.{need_ip}
use ikago.Icmp4.{Icmpv4Indicator, is_query}
use ikago.Packet.{PacketIndicator}
use ikago.Packet.Nat.{nat_src, nat_dst}
use ikago.Packet.Nat.Ends.{ends-tcp, ends-udp, ends-query}
use ikago.Server.State.{World}
use ikago.Server.Identity.{is_error_of}
use ikago.Server.Outbound.{
  with_pseudo, sum_under-ok, new_transport, new_network, sum_under, sent_transport,
}
use ikago.Server.Invariant.Mapping.{own_query}
use ikago.Server.Flow.{numbered, seen}

new_network-ok :
    (w : World) (ind : PacketIndicator) (h ip : Ipv4) (up : Ip)
    → need_ip w.up_conn.src_dev ≡ ok up
    → ind.network_layer ≡ some (Layer.ipv4 h)
    → new_network w ind ≡ ok ip
    → record h { src_ip = up } ≡ ip
unfolding new_network
new_network-ok w ind h ip up hu hn e = let f = rw (hn, hu) at e in cc

sent_transport-ok :
    (w : World) (v : ℕ) (ind : PacketIndicator) (ip : Ipv4) (l l' : Layer)
    → SumsKeep w.gopacket
    → new_network w ind ≡ ok ip
    → sent_transport w v ind (some l) ≡ ok (some l')
    → (new : Layer) × (new_transport w v ind l ≡ ok new) × (l' ≡ with_pseudo ip new)
unfolding sent_transport
sent_transport-ok w v ind ip l l' sums made e =
    let (new, ht, e1) = bind-ok (new_transport w v ind l) _ e in
    let (ip', hn, e2) = bind-ok (new_network w ind) _ e1 in
    let (summed, hs, e3) = bind-ok (sum_under w.gopacket ip' new) _ e2 in
    let same : ip' ≡ ip = (let f : ok ip' ≡ ok ip = sym hn ∙ made in cc) in
    let last : l' ≡ summed = (let f : ok (some summed) ≡ ok (some l') = e3 in cc) in
    (
      new,
      ht,
      last ∙ sum_under-ok w.gopacket ip' new summed sums hs ∙ ap (λ x. with_pseudo x new) same,
    )

-- A query with another Id is a query.
pub query-seen :
    (i : Icmpv4Indicator) (y : Icmpv4)
    → y.type ≡ i.layer.type
    → is_query i ≡ ok true
    → is_query (record { layer = y; emb_ipv4 = none; emb_transport = none }) ≡ ok true
unfolding is_query
query-seen i y same q = rw same q

-- An end, but for the Id of a query, which both ends share.
abbrev pub without_id : Addr → Addr
without_id (Addr.icmp_query_addr ip id) = Addr.ip_addr ip
without_id a = a

abbrev pub target : PacketIndicator → Result Addr
target ind = do d ← nat_dst ind; ok (without_id d)

targets :
    (p q : PacketIndicator) (a b : Addr)
    → nat_dst p ≡ ok a
    → nat_dst q ≡ ok b
    → without_id a ≡ without_id b
    → target p ≡ target q
targets p q a b hp hq same = rw (hp, hq, same) refl

-- The packet that `handleListen` makes of a TCP or UDP packet or an ICMPv4 query has the server's
-- address with the distributed number for its source, and its destination, the Id of a query aside,
-- is as it was. (Recording the network layer in a transport layer is taken to change nothing else.)
pub sent-Source :
    (w : World) (v : ℕ) (ind : PacketIndicator) (h ip : Ipv4) (up : Ip) (a : Addr) (l l' : Layer)
    → SumsKeep w.gopacket
    → need_ip w.up_conn.src_dev ≡ ok up
    → ind.network_layer ≡ some (Layer.ipv4 h)
    → ind.transport_layer ≡ some l
    → is_error_of ind l ≡ ok false
    → nat_src ind ≡ ok a
    → new_network w ind ≡ ok ip
    → sent_transport w v ind (some l) ≡ ok (some l')
    → (nat_src (seen ind ip l') ≡ ok (numbered a up v)) × (target (seen ind ip l') ≡ target ind)
unfolding new_transport seen numbered
sent-Source w v ind h ip up a (Layer.tcp x) l' sums hu hn hl own source made e =
    let (new, ht, same) = sent_transport-ok w v ind ip (Layer.tcp x) l' sums made e in
    let at = new_network-ok w ind h ip up hu hn made in
    let made_of : Layer.tcp (record x { src_port = v }) ≡ new = cc in
    let (s, d) = ends-tcp ind x h hl hn in
    let from : Addr.tcp_addr h.src_ip x.src_port ≡ a = (let f = sym s ∙ source in cc) in
    let y : Tcp = record x { src_port = v; pseudo = some ip } in
    let (s', d') = ends-tcp (seen ind ip (Layer.tcp y)) y ip refl refl in
    let built : l' ≡ Layer.tcp y = same ∙ ap (with_pseudo ip) (sym made_of) in
    (
      rw (built, ← from) (s' ∙ ap (λ (z : Ipv4). ok (Addr.tcp_addr z.src_ip v)) (sym at)),
      rw built (
          targets _ _ _ _ d' (d ∙ ap (λ (z : Ipv4). ok (Addr.tcp_addr z.dst_ip x.dst_port)) at)
            refl),
    )
sent-Source w v ind h ip up a (Layer.udp x) l' sums hu hn hl own source made e =
    let (new, ht, same) = sent_transport-ok w v ind ip (Layer.udp x) l' sums made e in
    let at = new_network-ok w ind h ip up hu hn made in
    let made_of : Layer.udp (record x { src_port = v }) ≡ new = cc in
    let (s, d) = ends-udp ind x h hl hn in
    let from : Addr.udp_addr h.src_ip x.src_port ≡ a = (let f = sym s ∙ source in cc) in
    let y : Udp = record x { src_port = v; pseudo = some ip } in
    let (s', d') = ends-udp (seen ind ip (Layer.udp y)) y ip refl refl in
    let built : l' ≡ Layer.udp y = same ∙ ap (with_pseudo ip) (sym made_of) in
    (
      rw (built, ← from) (s' ∙ ap (λ (z : Ipv4). ok (Addr.udp_addr z.src_ip v)) (sym at)),
      rw built (
          targets _ _ _ _ d' (d ∙ ap (λ (z : Ipv4). ok (Addr.udp_addr z.dst_ip x.dst_port)) at)
            refl),
    )
sent-Source w v ind h ip up a (Layer.icmpv4 x) l' sums hu hn hl own source made e =
    let (new, ht, same) = sent_transport-ok w v ind ip (Layer.icmpv4 x) l' sums made e in
    let at = new_network-ok w ind h ip up hu hn made in
    let (i, hi, q) = own_query ind x own in
    let ht' = rw (hi, q) at ht in
    let made_of : Layer.icmpv4 (record i.layer { id = v }) ≡ new = cc in
    let (s, d) = ends-query ind x i h hl hi q hn in
    let from : Addr.icmp_query_addr h.src_ip i.layer.id ≡ a = (let f = sym s ∙ source in cc) in
    let y : Icmpv4 = record i.layer { id = v } in
    let (s', d') =
      ends-query (seen ind ip (Layer.icmpv4 y)) y
        (record { layer = y; emb_ipv4 = none; emb_transport = none }) ip refl refl
        (query-seen i y refl q) refl in
    let built : l' ≡ Layer.icmpv4 y = same ∙ ap (with_pseudo ip) (sym made_of) in
    (
      rw (built, ← from) (s' ∙ ap (λ (z : Ipv4). ok (Addr.icmp_query_addr z.src_ip v)) (sym at)),
      rw built (
          targets _ _ _ _ d'
            (d ∙ ap (λ (z : Ipv4). ok (Addr.icmp_query_addr z.dst_ip i.layer.id)) at) refl),
    )
sent-Source w v ind h ip up a _ l' sums hu hn hl own source made e =
    let (new, ht, same) = sent_transport-ok w v ind ip _ l' sums made e in absurd (cc)
