-- ===== src/Server/Quiet.antt =====
-- The parts of the two handlers of cmd/ikago-server/main.go that leave the pools, `patMap` and `nat`
-- alone: they write, count, record names and put fragments together.
use ikago.Base.{
  ℕ, suc, Bytes, List, [], ◌∷◌, ◌++◌, ◌≡◌, refl, Option, none, some, Error, Result, ok, err,
}
use ikago.Addr.{string}
use ikago.Packet.{PacketIndicator, DnsIndicator}
use ikago.Packet.Nat.{size, mtu}
use ikago.Stat.{Direction, TrafficMonitor, add_direction}
use ikago.Server.State.{
  Conn, NatIndicator, World, Server, Act, lift, modify, pure, ◌>>=◌, write_up, write_client,
}
use ikago.Calls.Keeping.{Keeps, lift_holds, Keeps-bind, Keeps-lift}
use ikago.Server.Identity.{log_outbound}
use ikago.Server.Inbound.{inbound}
use ikago.Server.Listen.{write_outbound, count_outbound}
use ikago.Server.Upstream.{defragment, count_inbound, deliver_one, deliver, recorded, record_dns}

-- `P` is about the pools, `patMap` and `nat` alone.
abbrev pub Quiet {ℓ} : (Server → Type ℓ) → Type ℓ
Quiet P = (s t : Server) → t.pools ≡ s.pools → t.pat_map ≡ s.pat_map → t.nat ≡ s.nat → P s → P t

module _ {ℓ} (P : Server → Type ℓ) (quiet : Quiet P) (w : World) (now : ℕ) where
  write_up-quiet : (packet : Bytes) → Keeps P (write_up w packet)
  unfolding write_up
  write_up-quiet packet s p = by_answer (w.refuses_up s.sent packet)
    where
      by_answer :
          (o : Option Error)
          → P
              (elim o as (λ _. Result (Unit {0}) × Server) [
                | some e ↦ (err e, s)
                | none ↦ (ok tt, record s { sent = s.sent ++ packet ∷ [] })
              ]).1
      by_answer none = quiet s _ refl refl refl p
      by_answer (some e) = p

  pub write_outbound-quiet :
      (ind : PacketIndicator) (i : ℕ) (packets : List Bytes)
      → Keeps P (write_outbound w ind i packets)
  unfolding write_outbound
  write_outbound-quiet ind i [] = λ s p. p
  write_outbound-quiet ind i (packet ∷ rest) =
      Keeps-bind (write_up w packet) _ (write_up-quiet packet)
        (λ _. Keeps-lift (log_outbound i packet ind) _ (λ _. write_outbound-quiet ind (suc i) rest))

  pub count_outbound-quiet :
      (ind : PacketIndicator) (conn : Conn) → Keeps P (count_outbound now ind conn)
  unfolding count_outbound
  count_outbound-quiet ind conn s p = by_monitor s.monitor
    where
      by_monitor :
          (o : Option TrafficMonitor)
          → P
              ((elim o as (λ _. Act (Unit {0})) [
                | none ↦ pure tt
                | some m ↦ do
                  n ← lift (size ind)
                  modify (λ s. record s {
                    monitor =
                        some
                          (add_direction now (string conn.remote_addr) Direction.direction_out n m);
                  })
              ])
                s).1
      by_monitor none = p
      by_monitor (some m) = lift_holds P (size ind) _ s p (λ n _. quiet s _ refl refl refl p)

  count_inbound-quiet : (ni : NatIndicator) (n : ℕ) → Keeps P (count_inbound now ni n)
  unfolding count_inbound
  count_inbound-quiet ni n s p = by_monitor s.monitor
    where
      by_monitor :
          (o : Option TrafficMonitor)
          → P
              ((elim o as (λ _. Act (Unit {0})) [
                | none ↦ pure tt
                | some m ↦ modify (λ s. record s {
                  monitor =
                      some
                        (add_direction now (string ni.conn.remote_addr) Direction.direction_in n m);
                })
              ])
                s).1
      by_monitor none = p
      by_monitor (some m) = quiet s _ refl refl refl p

  write_client-quiet : (conn : Conn) (b : Bytes) → Keeps P (write_client w conn b)
  unfolding write_client
  write_client-quiet conn b s p = by_answer (w.refuses_client s.delivered conn b)
    where
      by_answer :
          (o : Option Error)
          → P
              (elim o as (λ _. Result (Unit {0}) × Server) [
                | some e ↦ (err e, s)
                | none ↦ (ok tt, record s { delivered = s.delivered ++ (conn, b) ∷ [] })
              ]).1
      by_answer none = quiet s _ refl refl refl p
      by_answer (some e) = p

  deliver_one-quiet :
      (ni : NatIndicator) (frag : PacketIndicator) → Keeps P (deliver_one w now ni frag)
  unfolding deliver_one
  deliver_one-quiet ni frag = Keeps-lift (inbound w.gopacket ni frag) _ (λ b.
      Keeps-bind (write_client w ni.conn b) _ (write_client-quiet ni.conn b) (λ _.
        Keeps-lift (mtu w.gopacket frag) _
          (λ n. Keeps-bind (count_inbound now ni n) _ (count_inbound-quiet ni n) (λ _ s m. m))))

  pub deliver-quiet :
      (ni : NatIndicator) (frags : List PacketIndicator) → Keeps P (deliver w now ni frags)
  unfolding deliver
  deliver-quiet ni [] = λ s p. p
  deliver-quiet ni (frag ∷ rest) =
      Keeps-bind (deliver_one w now ni frag) _ (deliver_one-quiet ni frag)
        (λ _. deliver-quiet ni rest)

  pub record_dns-quiet : (ind : PacketIndicator) → Keeps P (record_dns ind)
  unfolding record_dns
  record_dns-quiet ind s p = by_monitor s.monitor ind.dns_indicator
    where
      by_monitor :
          (o : Option TrafficMonitor) (d : Option DnsIndicator)
          → P
              ((elim o as (λ _. Act (Unit {0})) [
                | none ↦ pure tt
                | some m ↦ elim d as (λ _. Act (Unit {0})) [
                  | none ↦ pure tt
                  | some x ↦ modify (λ s. record s { dns = recorded x s.dns })
                ]
              ])
                s).1
      by_monitor none d = p
      by_monitor (some m) none = p
      by_monitor (some m) (some d) = quiet s _ refl refl refl p

  pub defragment-quiet : (ind : PacketIndicator) → Keeps P (defragment w now ind)
  unfolding defragment
  defragment-quiet ind s p = quiet s _ refl refl refl p
