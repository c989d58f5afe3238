-- ===== src/Server/Invariant/Mapping.antt =====
-- The ports and Ids that `handleListen` maps: what `patMap` holds behind it, and that the invariant
-- is kept.
use ikago.Base.{
  ℕ, ◌≡◌, refl, ap, Bool, true, false, Option, none, some, ok, err, deref, deref-some, not,
  missing_nat, if◌then◌else◌, bind-ok, arith,
}
use ikago.Addr.{string}
use ikago.Gopacket.{LayerType, Layer, Icmpv4, layer_type}
use ikago.Icmp4.{Icmpv4Indicator, is_query}
use ikago.Packet.{PacketIndicator, is_frag}
use ikago.Packet.Nat.{nat_src, nat_protocol}
use ikago.Server.Keys.{find, put, find-put_self, Entries-put}
use ikago.Server.Dist.Alive.{dist-IsValid}
use ikago.Server.State.{
  Quintuple, Conn, World, Server, Act, lift, modify, pure, ◌>>=◌, ◌>>◌, quintuple_key, guide_key,
}
use ikago.Calls.Keeping.{Keeps, act-ok, lift-ok, lift_holds, then_holds}
use ikago.Server.Identity.{quintuple_of, is_error_of}
use ikago.Server.Listen.{distribute, map_new, map_value, up_value}
use ikago.Server.Invariant.{InPool, Inv, dist-InPool}

map_new-ok :
    (now : ℕ) (ind : PacketIndicator) (q : Quintuple) (s : Server) (v : ℕ) (t : Server)
    → map_new now ind q s ≡ (ok v, t)
    → find q t.pat_map ≡ some v
unfolding map_new
map_new-ok now ind q s v t e =
    let (l, hl, e1) = lift-ok (deref ind.transport_layer) _ s e in
    let (error, he, e2) = lift-ok (is_error_of ind l) _ s e1 in by_error l error e2
  where
    by_error :
        (l : Layer) (error : Bool)
        → (if error then lift (err missing_nat) else (do
          value ← distribute now (layer_type l)
          modify (λ s. record s { pat_map = put q value s.pat_map })
          pure value))
            s
          ≡ (ok v, t)
        → find q t.pat_map ≡ some v
    by_error l true e = let f : err missing_nat ≡ ok v = ap (λ x. x.0) e in cc
    by_error l false e =
        let (u, mid, d, e1) = act-ok (distribute now (layer_type l)) _ s e in
        let same : u ≡ v = (let f : ok u ≡ ok v = ap (λ x. x.0) e1 in cc) in
        let at : put q u mid.pat_map ≡ t.pat_map = ap (λ x. x.1.pat_map) e1 in
        rw (← at, ← same) (find-put_self q u mid.pat_map)

-- A value that the map hands out is in it.
pub map_value-ok :
    (now : ℕ) (ind : PacketIndicator) (conn : Conn) (s : Server) (v : ℕ) (t : Server)
    → map_value now ind conn s ≡ (ok v, t)
    → (q : Quintuple) × (quintuple_of ind conn ≡ ok q) × (find q t.pat_map ≡ some v)
unfolding map_value
map_value-ok now ind conn s v t e =
    let (q, named, e1) = lift-ok (quintuple_of ind conn) _ s e in
    (q, named, by_known q (find q s.pat_map) refl e1)
  where
    by_known :
        (q : Quintuple) (known : Option ℕ)
        → find q s.pat_map ≡ known
        → (elim known as (λ _. Act ℕ) [ some value ↦ pure value | none ↦ map_new now ind q ]) s
          ≡ (ok v, t)
        → find q t.pat_map ≡ some v
    by_known q none h e = map_new-ok now ind q s v t e
    by_known q (some u) h e =
        let f : ok u ≡ ok v = ap (λ x. x.0) e in
        let at : s.pat_map ≡ t.pat_map = ap (λ x. x.1.pat_map) e in
        let same : u ≡ v = cc in rw (← at, ← same) h

-- An ICMPv4 packet that is no error is a query.
pub own_query :
    (ind : PacketIndicator) (x : Icmpv4)
    → is_error_of ind (Layer.icmpv4 x) ≡ ok false
    → (i : Icmpv4Indicator) × (ind.icmpv4_indicator ≡ some i) × (is_query i ≡ ok true)
unfolding is_error_of
own_query ind x n =
    let (i, hi, n1) = bind-ok (deref ind.icmpv4_indicator) _ n in
    let (query, hq, n2) = bind-ok (is_query i) _ n1 in
    (i, deref-some ind.icmpv4_indicator hi, by_query i query hq n2)
  where
    by_query :
        (i : Icmpv4Indicator) (query : Bool)
        → is_query i ≡ ok query
        → ok (not query) ≡ ok false
        → is_query i ≡ ok true
    by_query i true h e = h
    by_query i false h e = cc

-- The protocol of a packet that is no ICMPv4 error is that of its transport layer.
pub nat_protocol-own :
    (ind : PacketIndicator) (l : Layer) (p : LayerType)
    → ind.transport_layer ≡ some l
    → is_error_of ind l ≡ ok false
    → nat_protocol ind ≡ ok p
    → p ≡ layer_type l
unfolding nat_protocol layer_type
nat_protocol-own ind (Layer.tcp x) p h n e = ground arith
nat_protocol-own ind (Layer.udp x) p h n e = ground arith
nat_protocol-own ind (Layer.icmpv4 x) p h n e = let (i, hi, q) = own_query ind x n in ground arith
nat_protocol-own ind _ p h n e = ground arith

pub quintuple_of-protocol :
    (ind : PacketIndicator) (conn : Conn) (q : Quintuple)
    → quintuple_of ind conn ≡ ok q
    → nat_protocol ind ≡ ok q.protocol
unfolding quintuple_of
quintuple_of-protocol ind conn q e =
    let (a, ha, e1) = bind-ok (nat_src ind) _ e in
    let (p, hp, e2) = bind-ok (nat_protocol ind) _ e1 in
    let same : p ≡ q.protocol =
      (let f : record { src = string a; dst = string conn.remote_addr; protocol = p } ≡ q = cc in
        ap (λ x. x.protocol) f) in
    rw (← same) hp

pub InPool-along : {t u : LayerType} (v : ℕ) → t ≡ u → InPool u v → InPool t v
InPool-along v e h = rw e h

distribute-InPool :
    (w : World) (now : ℕ) (t : LayerType) (s : Server) (v : ℕ) (mid : Server)
    → Inv w s
    → distribute now t s ≡ (ok v, mid)
    → InPool t v
unfolding distribute
distribute-InPool w now t s v mid inv e =
    dist-InPool now t s.pools mid.pools v inv.pools (ap (λ x. (x.0, x.1.pools)) e)

module _ (w : World) (now : ℕ) where
  pub distribute-Inv : (t : LayerType) → Keeps (Inv w) (distribute now t)
  unfolding distribute
  distribute-Inv t s inv = record {
    pools = dist-IsValid now t s.pools inv.pools;
    values = inv.values;
    entries = inv.entries;
  }

  map_new-Inv :
      (ind : PacketIndicator) (conn : Conn) (q : Quintuple) (s : Server)
      → quintuple_of ind conn ≡ ok q
      → Inv w s
      → Inv w (map_new now ind q s).1
  unfolding map_new
  map_new-Inv ind conn q s named inv =
      lift_holds (Inv w) (deref ind.transport_layer) _ s inv (λ l hl.
        lift_holds (Inv w) (is_error_of ind l) _ s inv
          (λ error he. by_error l (deref-some ind.transport_layer hl) error he))
    where
      stored :
          (l : Layer)
          → ind.transport_layer ≡ some l
          → is_error_of ind l ≡ ok false
          → (v : ℕ) (mid : Server) → distribute now (layer_type l) s ≡ (ok v, mid)
          → Inv w mid
          → Inv w (record mid { pat_map = put q v mid.pat_map })
      stored l hl he v mid e m = record {
        pools = m.pools;
        values =
            Entries-put (λ q v. InPool q.protocol v) q v mid.pat_map
              (InPool-along v
                (nat_protocol-own ind l q.protocol hl he (quintuple_of-protocol ind conn q named))
                (distribute-InPool w now (layer_type l) s v mid inv e))
              m.values;
        entries = m.entries;
      }

      by_error :
          (l : Layer)
          → ind.transport_layer ≡ some l
          → (error : Bool) → is_error_of ind l ≡ ok error
          → Inv w
              ((if error then lift (err missing_nat) else (do
                value ← distribute now (layer_type l)
                modify (λ s. record s { pat_map = put q value s.pat_map })
                pure value))
                s).1
      by_error l hl true he = inv
      by_error l hl false he =
          then_holds (Inv w) (distribute now (layer_type l)) _ s
            (distribute-Inv (layer_type l) s inv) (stored l hl he)

  pub map_value-Inv : (ind : PacketIndicator) (conn : Conn) → Keeps (Inv w) (map_value now ind conn)
  unfolding map_value
  map_value-Inv ind conn s inv =
      lift_holds (Inv w) (quintuple_of ind conn) _ s inv
        (λ q named. by_known q named (find q s.pat_map))
    where
      by_known :
          (q : Quintuple)
          → quintuple_of ind conn ≡ ok q
          → (known : Option ℕ)
          → Inv w
              ((elim known as (λ _. Act ℕ) [ some value ↦ pure value | none ↦ map_new now ind q ])
                s).1
      by_known q named none = map_new-Inv ind conn q s named inv
      by_known q named (some v) = inv

  pub up_value-Inv : (ind : PacketIndicator) (conn : Conn) → Keeps (Inv w) (up_value now ind conn)
  unfolding up_value
  up_value-Inv ind conn s inv = lift_holds (Inv w) (is_frag ind) _ s inv (λ frag h. by_frag frag)
    where
      by_frag : (frag : Bool) → Inv w ((if frag then pure 0 else map_value now ind conn) s).1
      by_frag true = inv
      by_frag false = map_value-Inv ind conn s inv
