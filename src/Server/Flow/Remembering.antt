-- ===== src/Server/Flow/Remembering.antt =====
-- The part "NAT" of `handleListen` of cmd/ikago-server/main.go, where it ends well.
use ikago.Base.{ℕ, ◌≡◌, refl, sym, ap, ◌∙◌, false, Option, none, some, ok}
use ikago.Addr.{Ip}
use ikago.Gopacket.{LayerType, Layer}
use ikago.Device.{need_ip}
use ikago.Packet.{PacketIndicator}
use ikago.Packet.Nat.{nat_protocol}
use ikago.Server.Keys.{put}
use ikago.Server.Alive.{touch}
use ikago.Server.State.{
  NatGuide, NatIndicator, Conn, World, Server, Act, lift, modify, pure, ◌>>=◌, ◌>>◌, quintuple_key,
  guide_key,
}
use ikago.Calls.Keeping.{act-ok, lift-ok}
use ikago.Server.Identity.{is_error_of, guide_of, nat_entry}
use ikago.Server.Listen.{record_nat, keep_alive, remember}
use ikago.Server.Invariant.Mapping.{own_query}

-- A packet that is no ICMPv4 error has a guide.
own-guide :
    (up : Ip) (v : ℕ) (ind : PacketIndicator) (l : Layer) (guide : Option NatGuide)
    → is_error_of ind l ≡ ok false
    → guide_of up v ind l ≡ ok guide
    → (g : NatGuide) × (guide ≡ some g)
unfolding guide_of
own-guide up v ind l (some g) n e = (g, refl)
own-guide up v ind (Layer.tcp x) none n e = cc
own-guide up v ind (Layer.udp x) none n e = cc
own-guide up v ind (Layer.icmpv4 x) none n e =
    let (i, hi, q) = own_query ind x n in let e1 = rw (hi, q) at e in cc
own-guide up v ind _ none n e = cc

-- What "NAT" leaves behind.
pub record Remembered (w : World) (now v : ℕ) (ind : PacketIndicator) (conn : Conn) (l : Layer)
    (s t : Server) : Type 0 where
  pub up_ip : Ip
  pub up : need_ip w.up_conn.src_dev ≡ ok up_ip
  pub guide : NatGuide
  pub guided : guide_of up_ip v ind l ≡ ok (some guide)
  pub entry : NatIndicator
  pub source : nat_entry ind conn ≡ ok entry
  pub nat : t.nat ≡ put guide entry s.nat
  pub pat_map : t.pat_map ≡ s.pat_map
  pub protocol : LayerType
  pub is_protocol : nat_protocol ind ≡ ok protocol
  pub touched : touch now protocol v s.pools ≡ ok t.pools

record_nat-ok :
    (w : World) (v : ℕ) (ind : PacketIndicator) (conn : Conn) (l : Layer) (s t : Server)
    → is_error_of ind l ≡ ok false
    → record_nat w v ind conn l s ≡ (ok tt, t)
    → (up : Ip) × (g : NatGuide) × (ni : NatIndicator) × (need_ip w.up_conn.src_dev ≡ ok up)
      × (guide_of up v ind l ≡ ok (some g))
      × (nat_entry ind conn ≡ ok ni)
      × (record s { nat = put g ni s.nat } ≡ t)
unfolding record_nat
record_nat-ok w v ind conn l s t own e =
    let (up, hu, e1) = lift-ok (need_ip w.up_conn.src_dev) _ s e in
    let (guide, hg, e2) = lift-ok (guide_of up v ind l) _ s e1 in
    by_guide up hu guide hg (own-guide up v ind l guide own hg) e2
  where
    by_guide :
        (up : Ip)
        → need_ip w.up_conn.src_dev ≡ ok up
        → (guide : Option NatGuide) → guide_of up v ind l ≡ ok guide
        → (g : NatGuide) × (guide ≡ some g)
        → (elim guide as (λ _. Act (Unit {0})) [
          | none ↦ pure tt
          | some g ↦ do
            ni ← lift (nat_entry ind conn)
            modify (λ s. record s { nat = put g ni s.nat })
        ])
            s
          ≡ (ok tt, t)
        → (up : Ip) × (g : NatGuide) × (ni : NatIndicator) × (need_ip w.up_conn.src_dev ≡ ok up)
          × (guide_of up v ind l ≡ ok (some g))
          × (nat_entry ind conn ≡ ok ni)
          × (record s { nat = put g ni s.nat } ≡ t)
    by_guide up hu none hg (g, same) e = cc
    by_guide up hu (some g) hg own e =
        let (ni, hn, e1) = lift-ok (nat_entry ind conn) _ s e in
        (up, g, ni, hu, hg, hn, ap (λ x. x.1) e1)

pub remember-ok :
    (w : World) (now v : ℕ) (ind : PacketIndicator) (conn : Conn) (l : Layer) (s t : Server)
    → ind.transport_layer ≡ some l
    → is_error_of ind l ≡ ok false
    → remember w now v ind conn s ≡ (ok tt, t)
    → Remembered w now v ind conn l s t
unfolding remember keep_alive
remember-ok w now v ind conn l s t h own e = by_layer ind.transport_layer h e
  where
    by_layer :
        (o : Option Layer)
        → o ≡ some l
        → (elim o as (λ _. Act (Unit {0})) [
          | none ↦ pure tt
          | some l ↦ do
            record_nat w v ind conn l
            protocol ← lift (nat_protocol ind)
            keep_alive now protocol v
        ])
            s
          ≡ (ok tt, t)
        → Remembered w now v ind conn l s t
    by_layer none same e = cc
    by_layer (some k) same e =
        let k_l : k ≡ l = cc in
        let (done, mid, e1, e2) = act-ok (record_nat w v ind conn k) _ s e in
        let (up, g, ni, hu, hg, hn, hm) = record_nat-ok w v ind conn k s mid (rw k_l own) e1 in
        let (p, hp, e3) = lift-ok (nat_protocol ind) _ mid e2 in
        let (pools, ht, e4) = lift-ok (touch now p v mid.pools) _ mid e3 in
        record {
          up_ip = up;
          up = hu;
          guide = g;
          guided = rw (← k_l) hg;
          entry = ni;
          source = hn;
          nat = sym (ap (λ x. x.1.nat) e4) ∙ sym (ap (λ x. x.nat) hm);
          pat_map = sym (ap (λ x. x.1.pat_map) e4) ∙ sym (ap (λ x. x.pat_map) hm);
          protocol = p;
          is_protocol = hp;
          touched = ap (λ x. touch now p v x.pools) hm ∙ ht ∙ ap (λ x. ok x.1.pools) e4;
        }
