-- ===== src/Client/Delivered.antt =====
-- `handleUpstream` of cmd/ikago-client/main.go, where it ends well: what was written to the device.
use ikago.Base.{
  ℕ, Bytes, List, [], ◌∷◌, ◌++◌, ◌≡◌, refl, ap, ◌∙◌, sym, Option, none, some, Error, Result, ok,
  err, lookup, missing_nat, append-nil, append_assoc,
}
use ikago.Calls.{Act, ◌>>=◌, ◌>>◌, lift, pure, modify}
use ikago.Calls.Keeping.{Keeps, Keeps-to, lift_holds, act-ok, lift-ok}
use ikago.Addr.{Ip, ip_string}
use ikago.Device.{RawConn}
use ikago.Packet.{PacketIndicator, DnsIndicator, src_ip, dst_ip, transport_protocol}
use ikago.Packet.Nat.{src, dst, size}
use ikago.Packet.Parse.{parse_emb_packet}
use ikago.Stat.{TrafficMonitor, Direction}
use ikago.Server.Upstream.{recorded}
use ikago.Client.{World, Client, NatIndicator, write_raw}
use ikago.Client.Listen.{count_both}
use ikago.Client.Upstream.{
  device_packets, log_size, write_packets, account, deliver, handle_upstream,
}

-- What is written to one connection.
abbrev pub to_conn : RawConn → List Bytes → List (RawConn × Bytes)
to_conn conn [] = []
to_conn conn (p ∷ rest) = (conn, p) ∷ to_conn conn rest

-- Behind the state `s`, the packets were written to `conn`, in their order, and nothing else; `nat`
-- and the connection to the server are as they were.
pub record Written {U : Type 0} (conn : RawConn) (packets : List Bytes) (s t : Client U)
    : Type 0 where
  pub written : t.written ≡ s.written ++ to_conn conn packets
  pub nat : t.nat ≡ s.nat
  pub up_conn : t.up_conn ≡ s.up_conn

-- The packet `contents` was carried to the device that `nat` has for its destination.
pub record Carried {U : Type 0} (w : World U) (contents : Bytes) (s t : Client U) : Type 0 where
  pub indicator : PacketIndicator
  pub parsed : parse_emb_packet w.gopacket contents ≡ ok indicator
  pub ip : Ip
  pub destination : dst_ip indicator ≡ ok ip
  pub entry : NatIndicator
  pub known : lookup (ip_string ip) s.nat ≡ some entry
  pub packets : List Bytes
  pub made : device_packets w entry indicator ≡ ok packets
  pub carried : Written entry.conn packets s t

Written-cons :
    {U : Type 0} (conn : RawConn) (p : Bytes) (rest : List Bytes) (s one t : Client U)
    → record s { written = s.written ++ (conn, p) ∷ [] } ≡ one
    → Written conn rest one t
    → Written conn (p ∷ rest) s t
Written-cons conn p rest s one t e r = record {
  written =
      r.written
      ∙ ap (λ (x : Client _). x.written ++ to_conn conn rest) (sym e)
      ∙ append_assoc s.written ((conn, p) ∷ []) (to_conn conn rest);
  nat = r.nat ∙ ap (λ (x : Client _). x.nat) (sym e);
  up_conn = r.up_conn ∙ ap (λ (x : Client _). x.up_conn) (sym e);
}

module _ {U : Type 0} (w : World U) where
  write_raw-ok :
      (conn : RawConn) (b : Bytes) (s t : Client U)
      → write_raw w conn b s ≡ (ok tt, t)
      → record s { written = s.written ++ (conn, b) ∷ [] } ≡ t
  unfolding write_raw
  write_raw-ok conn b s t e = by_answer (w.refuses s.written conn b) e
    where
      by_answer :
          (o : Option Error)
          → (elim o as (λ _. Result (Unit {0}) × Client U) [
            | some e ↦ (err e, s)
            | none ↦ (ok tt, record s { written = s.written ++ (conn, b) ∷ [] })
          ])
            ≡ (ok tt, t)
          → record s { written = s.written ++ (conn, b) ∷ [] } ≡ t
      by_answer none e = ap (λ x. x.1) e
      by_answer (some x) e = let f : err x ≡ ok tt = ap (λ y. y.0) e in cc

  log_size-ok :
      (ind : PacketIndicator) (rest : List Bytes) (s t : Client U)
      → log_size w ind rest s ≡ (ok tt, t)
      → s ≡ t
  unfolding log_size
  log_size-ok ind [] s t e = ap (λ x. x.1) e
  log_size-ok ind (p ∷ rest) s t e = ap (λ x. x.1) e

  write_packets-Written :
      (conn : RawConn) (ind : PacketIndicator) (packets : List Bytes) (s t : Client U)
      → write_packets w conn ind packets s ≡ (ok tt, t)
      → Written conn packets s t
  unfolding write_packets
  write_packets-Written conn ind [] s t e =
      let f : s ≡ t = ap (λ x. x.1) e in
      rw (← f) (record { written = sym (append-nil s.written); nat = refl; up_conn = refl })
  write_packets-Written conn ind (p ∷ rest) s t e =
      let (u, one, hw, e1) = act-ok (write_raw w conn p) _ s e in
      let (x0, f0, e2) = lift-ok (transport_protocol ind) _ one e1 in
      let (x1, f1, e3) = lift-ok (dst ind) _ one e2 in
      let (x2, f2, e4) = lift-ok (src ind) _ one e3 in
      let (v, two, hl, e5) = act-ok (log_size w ind rest) _ one e4 in
      Written-cons conn p rest s two t
        (write_raw-ok conn p s one hw ∙ log_size-ok ind rest one two hl)
        (write_packets-Written conn ind rest two t e5)

  account-Written :
      (now : ℕ) (ind : PacketIndicator) (conn : RawConn) (packets : List Bytes) (s : Client U)
      → Keeps (Written conn packets s) (account w now ind)
  unfolding account count_both
  account-Written now ind conn packets s t r = by_monitor t.monitor
    where
      by_dns :
          (o : Option DnsIndicator) (m : Option TrafficMonitor)
          → Written conn packets s
              ((elim o as (λ _. Act (Client U) (Unit {0})) [
                | none ↦ pure tt
                | some d ↦ modify (λ s. record s { dns = recorded d s.dns })
              ])
                (record t { monitor = m })).1
      by_dns none m = record { written = r.written; nat = r.nat; up_conn = r.up_conn }
      by_dns (some d) m = record { written = r.written; nat = r.nat; up_conn = r.up_conn }

      by_monitor :
          (o : Option TrafficMonitor)
          → Written conn packets s
              ((elim o as (λ _. Act (Client U) (Unit {0})) [
                | none ↦ pure tt
                | some m ↦ do
                  local ← lift (dst_ip ind)
                  remote ← lift (src_ip ind)
                  n ← lift (size ind)
                  count_both w now local remote Direction.direction_in n
                  elim ind.dns_indicator as (λ _. Act (Client U) (Unit {0})) [
                    | none ↦ pure tt
                    | some d ↦ modify (λ s. record s { dns = recorded d s.dns })
                  ]
              ])
                t).1
      by_monitor none = r
      by_monitor (some m) = lift_holds (Written conn packets s) (dst_ip ind) _ t r (λ local _.
          lift_holds (Written conn packets s) (src_ip ind) _ t r (λ remote _.
            lift_holds (Written conn packets s) (size ind) _ t r
              (λ n _. by_dns ind.dns_indicator _)))

  deliver-Written :
      (now : ℕ) (ind : PacketIndicator) (ni : NatIndicator) (s t : Client U)
      → deliver w now ind ni s ≡ (ok tt, t)
      → (packets : List Bytes) × (device_packets w ni ind ≡ ok packets)
        × Written ni.conn packets s t
  unfolding deliver
  deliver-Written now ind ni s t e =
      let (packets, hp, e1) = lift-ok (device_packets w ni ind) _ s e in
      let (u, mid, hw, e2) = act-ok (write_packets w ni.conn ind packets) _ s e1 in
      (
        packets,
        hp,
        Keeps-to (account w now ind) (account-Written now ind ni.conn packets s) e2
            (write_packets-Written ni.conn ind packets s mid hw),
      )

  -- A handleUpstream that ends well on a packet that is not empty has found the entry of its
  -- destination in `nat`, and has written what the packet is for the entry's device to the entry's
  -- connection: all of its packets, once, in order, and nothing else anywhere. It leaves `nat` and
  -- the connection to the server as they are.
  pub handle_upstream-Carried :
      (now b : ℕ) (rest : Bytes) (s t : Client U)
      → handle_upstream w now (b ∷ rest) s ≡ (ok tt, t)
      → Carried w (b ∷ rest) s t
  unfolding handle_upstream
  handle_upstream-Carried now b rest s t e =
      let (ind, hi, e1) = lift-ok (parse_emb_packet w.gopacket (b ∷ rest)) _ s e in
      let (ip, hd, e2) = lift-ok (dst_ip ind) _ s e1 in
      let (ni, hn, e3) = by_entry ind (lookup (ip_string ip) s.nat) e2 in
      let (packets, hp, written) = deliver-Written now ind ni s t e3 in
      record {
        indicator = ind;
        parsed = hi;
        ip = ip;
        destination = hd;
        entry = ni;
        known = hn;
        packets = packets;
        made = hp;
        carried = written;
      }
    where
      by_entry :
          (ind : PacketIndicator) (o : Option NatIndicator)
          → (elim o as (λ _. Act (Client U) (Unit {0})) [
            | none ↦ lift (err missing_nat)
            | some ni ↦ deliver w now ind ni
          ])
              s
            ≡ (ok tt, t)
          → (ni : NatIndicator) × (o ≡ some ni) × (deliver w now ind ni s ≡ (ok tt, t))
      by_entry ind none e = let f : err missing_nat ≡ ok tt = ap (λ y. y.0) e in cc
      by_entry ind (some ni) e = (ni, refl, e)
