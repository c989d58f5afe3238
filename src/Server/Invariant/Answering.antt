-- ===== src/Server/Invariant/Answering.antt =====
-- `handleUpstream` of cmd/ikago-server/main.go keeps the invariant, however it ends.
use ikago.Base.{ℕ, List, Option, none, some}
use ikago.Gopacket.{Packet}
use ikago.Packet.{PacketIndicator}
use ikago.Packet.Nat.{nat_protocol}
use ikago.Packet.Parse.{parse_packet}
use ikago.Server.Keys.{find}
use ikago.Server.State.{NatIndicator, World, Act, pure, guide_key}
use ikago.Calls.Keeping.{Keeps, lift_holds, Keeps-bind, Keeps-lift}
use ikago.Server.Identity.{upstream_guide, alive_value}
use ikago.Server.Upstream.{defragment, deliver, keep_upstream, answer, dispatch, handle_upstream}
use ikago.Server.Quiet.{deliver-quiet, record_dns-quiet, defragment-quiet}
use ikago.Server.Invariant.{Inv, Inv-same}
use ikago.Server.Invariant.Listening.{keep_alive-Inv}

module _ (w : World) (now : ℕ) where
  keep_upstream-Inv : (ind : PacketIndicator) → Keeps (Inv w) (keep_upstream now ind)
  unfolding keep_upstream
  keep_upstream-Inv ind =
      Keeps-lift (nat_protocol ind) _
        (λ p. Keeps-lift (alive_value ind p) _ (λ v. keep_alive-Inv w now p v))

  answer-Inv :
      (ind : PacketIndicator) (frags : List PacketIndicator) (ni : NatIndicator)
      → Keeps (Inv w) (answer w now ind frags ni)
  unfolding answer
  answer-Inv ind frags ni = Keeps-bind (keep_upstream now ind) _ (keep_upstream-Inv ind) (λ _.
      Keeps-bind (deliver w now ni frags) _ (deliver-quiet (Inv w) Inv-same w now ni frags)
        (λ _. record_dns-quiet (Inv w) Inv-same w now ind))

  dispatch-Inv :
      (ind : PacketIndicator) (frags : List PacketIndicator)
      → Keeps (Inv w) (dispatch w now ind frags)
  unfolding dispatch
  dispatch-Inv ind frags s inv =
      lift_holds (Inv w) (upstream_guide ind) _ s inv (λ g _. by_known (find g s.nat))
    where
      by_known :
          (known : Option NatIndicator)
          → Inv w
              ((elim known as (λ _. Act (Unit {0})) [
                | none ↦ pure tt
                | some ni ↦ answer w now ind frags ni
              ])
                s).1
      by_known none = inv
      by_known (some ni) = answer-Inv ind frags ni s inv

  -- `handleUpstream` keeps the invariant, whether it ends well, with an error or with a panic.
  pub handle_upstream-Inv : (packet : Packet) → Keeps (Inv w) (handle_upstream w now packet)
  unfolding handle_upstream
  handle_upstream-Inv packet = Keeps-lift (parse_packet w.gopacket packet) _ (λ ind.
      Keeps-bind (defragment w now ind) _ (defragment-quiet (Inv w) Inv-same w now ind) by_found)
    where
      by_found :
          (found : Option (PacketIndicator × List PacketIndicator))
          → Keeps (Inv w) (elim found as (λ _. Act (Unit {0})) [
            | none ↦ pure tt
            | some (whole, frags) ↦ dispatch w now whole frags
          ])
      by_found none = λ s inv. inv
      by_found (some (whole, frags)) = dispatch-Inv whole frags
