-- ===== src/Server/Invariant/Listening.antt =====
-- `handleListen` keeps the invariant, however it ends.
use ikago.Base.{
  ℕ, Bytes, ◌≡◌, refl, Bool, true, false, inl, inr, [], ◌∷◌, Option, none, some, ok, if◌then◌else◌,
}
use ikago.Addr.{Ip}
use ikago.Gopacket.{LayerType, Layer}
use ikago.Device.{need_ip}
use ikago.Packet.{PacketIndicator, is_frag}
use ikago.Packet.Nat.{nat_protocol}
use ikago.Server.Keys.{put, Entries-put}
use ikago.Server.State.{
  NatGuide, Conn, World, Server, Act, lift, modify, pure, ◌>>=◌, ◌>>◌, quintuple_key, guide_key,
}
use ikago.Calls.Keeping.{Keeps, lift-ok, lift_holds, then_holds, Keeps-bind}
use ikago.Server.Identity.{guide_of, nat_entry}
use ikago.Server.Listen.{
  up_value, map_value, write_outbound, record_nat, keep_alive, remember, redirect, handle_listen,
}
use ikago.Server.Quiet.{write_outbound-quiet, count_outbound-quiet}
use ikago.Server.Alive.{touch, touch-IsValid}
use ikago.Server.Invariant.Mapping.{map_value-ok, up_value-Inv, quintuple_of-protocol}
use ikago.Server.Invariant.Guides.{Valued, guide_of-Leads}
use ikago.Server.Outbound.{outbound}
use ikago.Packet.Parse.{parse_emb_packet}
use ikago.Server.Invariant.{Leads, Inv, Inv-same, FragsBare}

module _ (w : World) (now : ℕ) where
  pub keep_alive-Inv : (t : LayerType) (v : ℕ) → Keeps (Inv w) (keep_alive now t v)
  unfolding keep_alive
  keep_alive-Inv t v s inv = lift_holds (Inv w) (touch now t v s.pools) _ s inv (λ p e. record {
    pools = touch-IsValid now t v s.pools p e inv.pools;
    values = inv.values;
    entries = inv.entries;
  })

  record_nat-Inv :
      (v : ℕ) (ind : PacketIndicator) (conn : Conn) (l : Layer) (s : Server)
      → ind.transport_layer ≡ some l
      → Valued ind v
      → Inv w s
      → Inv w (record_nat w v ind conn l s).1
  unfolding record_nat
  record_nat-Inv v ind conn l s hl hv inv =
      lift_holds (Inv w) (need_ip w.up_conn.src_dev) _ s inv (λ up hu.
        lift_holds (Inv w) (guide_of up v ind l) _ s inv (λ guide hg. by_guide up hu guide hg))
    where
      by_guide :
          (up : Ip)
          → need_ip w.up_conn.src_dev ≡ ok up
          → (guide : Option NatGuide) → guide_of up v ind l ≡ ok guide
          → Inv w
              ((elim guide as (λ _. Act (Unit {0})) [
                | none ↦ pure tt
                | some g ↦ do
                  ni ← lift (nat_entry ind conn)
                  modify (λ s. record s { nat = put g ni s.nat })
              ])
                s).1
      by_guide up hu none hg = inv
      by_guide up hu (some g) hg = lift_holds (Inv w) (nat_entry ind conn) _ s inv (λ ni hn.
          record {
            pools = inv.pools;
            values = inv.values;
            entries =
                Entries-put (Leads w) g ni s.nat
                  (guide_of-Leads ind up v w conn l g ni hu hl hv hg hn) inv.entries;
          })

  remember-Inv :
      (v : ℕ) (ind : PacketIndicator) (conn : Conn) (s : Server)
      → Valued ind v
      → Inv w s
      → Inv w (remember w now v ind conn s).1
  unfolding remember
  remember-Inv v ind conn s hv inv = by_layer ind.transport_layer refl
    where
      by_layer :
          (o : Option Layer)
          → ind.transport_layer ≡ o
          → Inv w
              ((elim o as (λ _. Act (Unit {0})) [
                | none ↦ pure tt
                | some l ↦ do
                  record_nat w v ind conn l
                  protocol ← lift (nat_protocol ind)
                  keep_alive now protocol v
              ])
                s).1
      by_layer none h = inv
      by_layer (some l) h =
          then_holds (Inv w) (record_nat w v ind conn l) _ s
            (record_nat-Inv v ind conn l s h hv inv)
            (λ _ mid _ m.
              lift_holds (Inv w) (nat_protocol ind) _ mid m (λ p _. keep_alive-Inv p v mid m))

  -- The value of a packet that is no fragment is in its protocol's pool.
  pub up_value-Valued :
      (ind : PacketIndicator) (conn : Conn) (s : Server) (v : ℕ) (mid : Server)
      → (is_frag ind ≡ ok true → ind.transport_layer ≡ none)
      → up_value now ind conn s ≡ (ok v, mid)
      → Inv w mid
      → Valued ind v
  unfolding up_value
  up_value-Valued ind conn s v mid bare e inv =
      let (frag, hf, e1) = lift-ok (is_frag ind) _ s e in by_frag frag hf e1
    where
      by_frag :
          (frag : Bool)
          → is_frag ind ≡ ok frag
          → (if frag then pure 0 else map_value now ind conn) s ≡ (ok v, mid)
          → Valued ind v
      by_frag true hf e = inl (bare hf)
      by_frag false hf e =
          let (q, named, at) = map_value-ok now ind conn s v mid e in
          inr (q.protocol, quintuple_of-protocol ind conn q named, inv.values q v at)

  redirect-Inv :
      (ind : PacketIndicator) (conn : Conn)
      → (is_frag ind ≡ ok true → ind.transport_layer ≡ none)
      → Keeps (Inv w) (redirect w now ind conn)
  unfolding redirect
  redirect-Inv ind conn bare s inv =
      then_holds (Inv w) (up_value now ind conn) _ s (up_value-Inv w now ind conn s inv)
        (λ v mid e m.
          let hv = up_value-Valued ind conn s v mid bare e m in
          lift_holds (Inv w) (outbound w v ind) _ mid m (λ packets _.
            Keeps-bind (write_outbound w ind 0 packets) _
              (write_outbound-quiet (Inv w) Inv-same w now ind 0 packets)
              (λ _.
                Keeps-bind (remember w now v ind conn) _ (λ t n. remember-Inv v ind conn t hv n)
                  (λ _. count_outbound-quiet (Inv w) Inv-same w now ind conn))
              mid m))

  -- `handleListen` keeps the invariant, whether it ends well, with an error or with a panic.
  pub handle_listen-Inv :
      (contents : Bytes) (conn : Conn)
      → FragsBare w.gopacket
      → Keeps (Inv w) (handle_listen w now contents conn)
  unfolding handle_listen
  handle_listen-Inv [] conn bare = λ s inv. inv
  handle_listen-Inv (b ∷ rest) conn bare = λ s inv.
      lift_holds (Inv w) (parse_emb_packet w.gopacket (b ∷ rest)) _ s inv
        (λ ind h. redirect-Inv ind conn (bare (b ∷ rest) ind h) s inv)
