-- ===== src/Server/Refinement/Binding.antt =====
-- The parts of the two handlers of cmd/ikago-server/main.go that leave `nat` alone, whatever they
-- return.
use ikago.Base.{
  ℕ, ◌≡◌, refl, Bool, true, false, List, Option, none, some, err, deref, missing_nat, if◌then◌else◌,
}
use ikago.Gopacket.{LayerType, Layer, Packet, layer_type}
use ikago.Packet.{PacketIndicator, is_frag}
use ikago.Packet.Nat.{nat_protocol}
use ikago.Packet.Parse.{parse_packet}
use ikago.Server.Keys.{find, put}
use ikago.Server.Alive.{touch}
use ikago.Server.State.{
  Quintuple, NatIndicator, Conn, World, Server, Act, lift, modify, pure, ◌>>=◌, ◌>>◌, quintuple_key,
  guide_key,
}
use ikago.Calls.Keeping.{Keeps, lift_holds, Keeps-bind, Keeps-lift}
use ikago.Server.Identity.{quintuple_of, is_error_of, alive_value, upstream_guide}
use ikago.Server.Listen.{distribute, map_new, map_value, up_value, keep_alive}
use ikago.Server.Upstream.{defragment, deliver, keep_upstream, answer, dispatch, handle_upstream}
use ikago.Server.Quiet.{Quiet, deliver-quiet, record_dns-quiet, defragment-quiet}

-- `P` is about `nat` alone.
abbrev pub NatOnly {ℓ} : (Server → Type ℓ) → Type ℓ
NatOnly P = (s t : Server) → t.nat ≡ s.nat → P s → P t

module _ {ℓ} (P : Server → Type ℓ) (only : NatOnly P) where
  pub quiet : Quiet P
  quiet s t p q n = only s t n

  map_new-only : (now : ℕ) (ind : PacketIndicator) (q : Quintuple) → Keeps P (map_new now ind q)
  unfolding map_new distribute
  map_new-only now ind q =
      Keeps-lift (deref ind.transport_layer) _ (λ l. Keeps-lift (is_error_of ind l) _ (by_error l))
    where
      by_error :
          (l : Layer) (error : Bool)
          → Keeps P (
              if error then lift (err missing_nat) else (do
                value ← distribute now (layer_type l)
                modify (λ s. record s { pat_map = put q value s.pat_map })
                pure value))
      by_error l true = λ s p. p
      by_error l false =
          Keeps-bind (distribute now (layer_type l)) _ (λ s p. only s _ refl p)
            (λ v s p. only s _ refl p)

  pub up_value-only :
      (now : ℕ) (ind : PacketIndicator) (conn : Conn) → Keeps P (up_value now ind conn)
  unfolding up_value map_value
  up_value-only now ind conn = Keeps-lift (is_frag ind) _ by_frag
    where
      by_known :
          (q : Quintuple) (known : Option ℕ)
          → Keeps P
              (elim known as (λ _. Act ℕ) [ some value ↦ pure value | none ↦ map_new now ind q ])
      by_known q none = map_new-only now ind q
      by_known q (some v) = λ s p. p

      by_frag : (frag : Bool) → Keeps P (if frag then pure 0 else map_value now ind conn)
      by_frag true = λ s p. p
      by_frag false =
          Keeps-lift (quintuple_of ind conn) _ (λ q s p. by_known q (find q s.pat_map) s p)

  pub keep_alive-only : (now : ℕ) (t : LayerType) (v : ℕ) → Keeps P (keep_alive now t v)
  unfolding keep_alive
  keep_alive-only now t v s p =
      lift_holds P (touch now t v s.pools) _ s p (λ pools e. only s _ refl p)

  keep_upstream-only : (now : ℕ) (ind : PacketIndicator) → Keeps P (keep_upstream now ind)
  unfolding keep_upstream
  keep_upstream-only now ind =
      Keeps-lift (nat_protocol ind) _
        (λ p. Keeps-lift (alive_value ind p) _ (λ v. keep_alive-only now p v))

  dispatch-only :
      (w : World) (now : ℕ) (ind : PacketIndicator) (frags : List PacketIndicator)
      → Keeps P (dispatch w now ind frags)
  unfolding dispatch answer
  dispatch-only w now ind frags =
      Keeps-lift (upstream_guide ind) _ (λ g s p. by_known (find g s.nat) s p)
    where
      by_known :
          (known : Option NatIndicator)
          → Keeps P (elim known as (λ _. Act (Unit {0})) [
            | none ↦ pure tt
            | some ni ↦ answer w now ind frags ni
          ])
      by_known none = λ s p. p
      by_known (some ni) = Keeps-bind (keep_upstream now ind) _ (keep_upstream-only now ind) (λ _.
          Keeps-bind (deliver w now ni frags) _ (deliver-quiet P quiet w now ni frags)
            (λ _. record_dns-quiet P quiet w now ind))

  pub handle_upstream-only :
      (w : World) (now : ℕ) (packet : Packet) → Keeps P (handle_upstream w now packet)
  unfolding handle_upstream
  handle_upstream-only w now packet =
      Keeps-lift (parse_packet w.gopacket packet) _
        (λ ind. Keeps-bind (defragment w now ind) _ (defragment-quiet P quiet w now ind) by_found)
    where
      by_found :
          (found : Option (PacketIndicator × List PacketIndicator))
          → Keeps P (elim found as (λ _. Act (Unit {0})) [
            | none ↦ pure tt
            | some (whole, frags) ↦ dispatch w now whole frags
          ])
      by_found none = λ s p. p
      by_found (some (whole, frags)) = dispatch-only w now whole frags
