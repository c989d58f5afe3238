-- ===== src/Server/Flow/Returning.antt =====
-- An answer from the upstream finds its client, by `handleListen` and `handleUpstream` of
-- cmd/ikago-server/main.go.
use ikago.Base.{ℕ, List, ◌≡◌, refl, sym, ap, ◌∙◌, false, some, ok}
use ikago.Addr.{Ip, Addr, string}
use ikago.Gopacket.{Layer, layer_type}
use ikago.Packet.{PacketIndicator}
use ikago.Packet.Nat.{nat_src, nat_dst}
use ikago.Packet.Nat.Ends.{nat_src-tcp, nat_src-udp, nat_src-query}
use ikago.Server.Keys.{find}
use ikago.Server.State.{NatGuide, NatIndicator, Conn, World, Server, guide_key}
use ikago.Server.Identity.{is_error_of, guide_of, upstream_guide, nat_entry}
use ikago.Server.Upstream.{dispatch, answer}
use ikago.Server.Invariant.Mapping.{own_query}
use ikago.Server.Flow.{Recorded, numbered}

-- The guide of a number is that of an answer to it.
guide_of-numbered :
    (up : Ip) (v : ℕ) (ind : PacketIndicator) (l : Layer) (a : Addr) (g : NatGuide)
    → ind.transport_layer ≡ some l
    → is_error_of ind l ≡ ok false
    → nat_src ind ≡ ok a
    → guide_of up v ind l ≡ ok (some g)
    → record { src = string (numbered a up v); protocol = layer_type l } ≡ g
unfolding guide_of numbered layer_type
guide_of-numbered up v ind (Layer.tcp x) a g h own e hg =
    let (ip, hi, same) = nat_src-tcp ind x a h e in rw same (let f : _ ≡ g = cc in f)
guide_of-numbered up v ind (Layer.udp x) a g h own e hg =
    let (ip, hi, same) = nat_src-udp ind x a h e in rw same (cc)
guide_of-numbered up v ind (Layer.icmpv4 x) a g h own e hg =
    let (i, hi, q) = own_query ind x own in
    let (ip, hs, same) = nat_src-query ind x i a h hi q e in
    let e1 = rw (hi, q) at hg in rw same (cc)
guide_of-numbered up v ind _ a g h own e hg = cc

-- What `handleUpstream` does with a packet whose guide is in `nat`.
pub dispatch-found :
    (w : World) (now : ℕ) (back : PacketIndicator) (frags : List PacketIndicator)
    (ni : NatIndicator) (g : NatGuide) (t : Server)
    → upstream_guide back ≡ ok g
    → find g t.nat ≡ some ni
    → dispatch w now back frags t ≡ answer w now back frags ni t
unfolding dispatch
dispatch-found w now back frags ni g t hg hf = rw (hg, hf) refl

-- A packet from the upstream of the flow's protocol, whose `NATDst` is the server's address with the
-- flow's number, goes to the client of the flow.
pub dispatch-Recorded :
    (w : World) (now later : ℕ) (ind back : PacketIndicator) (conn : Conn) (l k : Layer) (a : Addr)
    (t : Server) (frags : List PacketIndicator)
    → (r : Recorded w now ind conn l t) → ind.transport_layer ≡ some l
    → is_error_of ind l ≡ ok false
    → nat_src ind ≡ ok a
    → back.transport_layer ≡ some k
    → layer_type k ≡ layer_type l
    → nat_dst back ≡ ok (numbered a r.up_ip r.value)
    → dispatch w later back frags t
      ≡ answer w later back frags (record { src = conn.remote_addr; emb_src = a; conn = conn }) t
unfolding upstream_guide nat_entry
dispatch-Recorded w now later ind back conn l k a t frags r h own e hk types hd =
    let g = guide_of-numbered r.up_ip r.value ind l a r.guide h own e r.guided in
    let to : upstream_guide back ≡ ok r.guide =
      rw (hd, hk, types) (ap (λ (x : NatGuide). ok x) g) in
    let source : nat_entry ind conn
        ≡ ok (record { src = conn.remote_addr; emb_src = a; conn = conn }) =
      rw e refl in
    let entry : some r.entry ≡ some (record { src = conn.remote_addr; emb_src = a; conn = conn }) =
      (let f = sym r.source ∙ source in cc) in
    dispatch-found w later back frags _ r.guide t to (r.found ∙ entry)
