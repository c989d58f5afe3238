-- ===== src/Server/Flow/Recording.antt =====
-- `handleListen` of cmd/ikago-server/main.go, where it ends well: what it has recorded.
use ikago.Base.{
  ℕ, Bytes, List, ◌∷◌, ◌≡◌, refl, sym, ap, ◌∙◌, Bool, true, false, none, some, ok, if◌then◌else◌,
}
use ikago.Gopacket.{Layer}
use ikago.Packet.{PacketIndicator, is_frag}
use ikago.Packet.Parse.{parse_emb_packet}
use ikago.Server.Keys.{find, find-put_self}
use ikago.Server.State.{
  Quintuple, Conn, World, Server, lift, pure, ◌>>=◌, ◌>>◌, quintuple_key, guide_key,
}
use ikago.Calls.Keeping.{Keeps-to, act-ok, lift-ok}
use ikago.Server.Identity.{quintuple_of, is_error_of}
use ikago.Server.Outbound.{outbound}
use ikago.Server.Listen.{
  up_value, map_value, write_outbound, remember, count_outbound, redirect, handle_listen,
}
use ikago.Server.Quiet.{Quiet, write_outbound-quiet, count_outbound-quiet}
use ikago.Server.Invariant.{Inv, Inv-same, FragsBare}
use ikago.Server.Invariant.Mapping.{
  map_value-ok, map_value-Inv, nat_protocol-own, quintuple_of-protocol, InPool-along,
}
use ikago.Server.Invariant.Living.{LiveAt-along, touch-LiveAt}
use ikago.Server.Flow.{Recorded}
use ikago.Server.Flow.Remembering.{Remembered, remember-ok}

-- The state is `m` as far as the pools and the two maps go.
pub record Same (m : Server) (t : Server) : Type 0 where
  pub pools : t.pools ≡ m.pools
  pub pat_map : t.pat_map ≡ m.pat_map
  pub nat : t.nat ≡ m.nat

pub Same-quiet : (m : Server) → Quiet (Same m)
Same-quiet m s t p q n same = record {
  pools = p ∙ same.pools;
  pat_map = q ∙ same.pat_map;
  nat = n ∙ same.nat;
}

pub Same-self : (m : Server) → Same m m
Same-self m = record { pools = refl; pat_map = refl; nat = refl }

module _ (w : World) (now : ℕ) (ind : PacketIndicator) (conn : Conn) (l : Layer) where
  -- A value that was mapped, and a packet that was remembered under it, are a recorded flow.
  recorded :
      (v : ℕ) (q : Quintuple) (s mid t : Server)
      → ind.transport_layer ≡ some l
      → is_error_of ind l ≡ ok false
      → quintuple_of ind conn ≡ ok q
      → find q s.pat_map ≡ some v
      → Inv w s
      → Remembered w now v ind conn l s mid
      → Same mid t
      → Recorded w now ind conn l t
  recorded v q s mid t h own named at inv r same = record {
    quintuple = q;
    named = named;
    value = v;
    mapped = rw (same.pat_map, r.pat_map) at;
    live = rw same.pools (
        LiveAt-along (nat_protocol-own ind l r.protocol h own r.is_protocol) (
          touch-LiveAt now r.protocol v s.pools mid.pools
            (InPool-along v (sym protocols) (inv.values q v at)) r.touched));
    up_ip = r.up_ip;
    up = r.up;
    guide = r.guide;
    guided = r.guided;
    entry = r.entry;
    source = r.source;
    found = rw (same.nat, r.nat) (find-put_self r.guide r.entry s.nat);
  }
    where
      protocols : q.protocol ≡ r.protocol
      protocols =
          let e = sym (quintuple_of-protocol ind conn q named) ∙ r.is_protocol in
          let f : q.protocol ≡ r.protocol = cc in f

  written-Same :
      (packets : List Bytes) (m t : Server)
      → write_outbound w ind 0 packets m ≡ (ok tt, t)
      → Same m t
  written-Same packets m t e =
      Keeps-to (write_outbound w ind 0 packets)
        (write_outbound-quiet (Same m) (Same-quiet m) w now ind 0 packets) e (Same-self m)

  counted-Same : (m t : Server) → count_outbound now ind conn m ≡ (ok tt, t) → Same m t
  counted-Same m t e =
      Keeps-to (count_outbound now ind conn)
        (count_outbound-quiet (Same m) (Same-quiet m) w now ind conn) e (Same-self m)

  redirect-Recorded :
      (s t : Server)
      → (is_frag ind ≡ ok true → ind.transport_layer ≡ none)
      → ind.transport_layer ≡ some l
      → is_error_of ind l ≡ ok false
      → Inv w s
      → redirect w now ind conn s ≡ (ok tt, t)
      → Recorded w now ind conn l t
  unfolding redirect up_value
  redirect-Recorded s t bare h own inv e =
      let (v, mid, e1, e2) = act-ok (up_value now ind conn) _ s e in
      let (frag, hf, e3) = lift-ok (is_frag ind) _ s e1 in by_frag v mid frag hf e3 e2
    where
      behind :
          (v : ℕ) (mid : Server)
          → (do
            packets ← lift (outbound w v ind)
            write_outbound w ind 0 packets
            remember w now v ind conn
            count_outbound now ind conn)
              mid
            ≡ (ok tt, t)
          → (q : Quintuple) → quintuple_of ind conn ≡ ok q
          → find q mid.pat_map ≡ some v
          → Inv w mid
          → Recorded w now ind conn l t
      behind v mid e q named at m =
          let (packets, hp, e1) = lift-ok (outbound w v ind) _ mid e in
          let (done, sent, e2, e3) = act-ok (write_outbound w ind 0 packets) _ mid e1 in
          let (done', kept, e4, e5) = act-ok (remember w now v ind conn) _ sent e3 in
          let before = written-Same packets mid sent e2 in
          let after = counted-Same kept t e5 in
          let m' = Inv-same mid sent before.pools before.pat_map before.nat m in
          recorded v q sent kept t h own named (rw before.pat_map at) m'
            (remember-ok w now v ind conn l sent kept h own e4) after

      by_frag :
          (v : ℕ) (mid : Server) (frag : Bool)
          → is_frag ind ≡ ok frag
          → (if frag then pure 0 else map_value now ind conn) s ≡ (ok v, mid)
          → (do
            packets ← lift (outbound w v ind)
            write_outbound w ind 0 packets
            remember w now v ind conn
            count_outbound now ind conn)
              mid
            ≡ (ok tt, t)
          → Recorded w now ind conn l t
      by_frag v mid true hf e1 e2 = absurd (let f : some l ≡ none = sym h ∙ bare hf in cc)
      by_frag v mid false hf e1 e2 =
          let (q, named, at) = map_value-ok now ind conn s v mid e1 in
          behind v mid e2 q named at
            (Keeps-to (map_value now ind conn) (map_value-Inv w now ind conn) e1 inv)

-- A call of `handleListen` that ends well on a TCP or UDP packet or an ICMPv4 query has recorded the
-- flow: the packet's quintuple is mapped to a number, the number's slot holds the time of the call,
-- and under the number's guide `nat` has the client's address, source and connection. (The state
-- satisfies the invariant, and gopacket gives a fragment no transport layer.)
pub handle_listen-Recorded :
    (w : World) (now : ℕ) (b : ℕ) (rest : Bytes) (conn : Conn) (ind : PacketIndicator) (l : Layer)
    (s t : Server)
    → FragsBare w.gopacket
    → Inv w s
    → parse_emb_packet w.gopacket (b ∷ rest) ≡ ok ind
    → ind.transport_layer ≡ some l
    → is_error_of ind l ≡ ok false
    → handle_listen w now (b ∷ rest) conn s ≡ (ok tt, t)
    → Recorded w now ind conn l t
unfolding handle_listen
handle_listen-Recorded w now b rest conn ind l s t bare inv parsed h own e =
    let (ind', hp, e1) = lift-ok (parse_emb_packet w.gopacket (b ∷ rest)) _ s e in
    let same : ind' ≡ ind = (let f : ok ind' ≡ ok ind = sym hp ∙ parsed in cc) in
    redirect-Recorded w now ind conn l s t (bare (b ∷ rest) ind parsed) h own inv
      (ap (λ x. redirect w now x conn s) (sym same) ∙ e1)
