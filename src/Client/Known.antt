-- ===== src/Client/Known.antt =====
-- The two handlers of cmd/ikago-client/main.go together: a device that was heard is found by the
-- packets that come back to it.
use ikago.Base.{
  ℕ, Bytes, List, ◌∷◌, ◌≡◌, ◌≢◌, refl, ap, ◌∙◌, sym, Bool-cases, Option, none, deref, some,
  Option-cases, inl, inr, ◌⊎◌, ok, lookup, lookup-store_self, text_eq, text_eq_sound,
}
use ikago.Calls.{Act, ◌>>=◌, lift, pure}
use ikago.Calls.Keeping.{Keeps, Keeps-to, Keeps-lift, Keeps-bind, lift_holds, act-ok, lift-ok}
use ikago.Addr.{Ip, ip_string}
use ikago.Gopacket.{Layer, LayerType, Packet, layer_type}
use ikago.Device.{RawConn}
use ikago.Packet.{PacketIndicator, src_ip, dst_ip, transport_protocol}
use ikago.Packet.Nat.{src, dst, mtu}
use ikago.Packet.Parse.{parse_packet, parse_emb_packet}
use ikago.Stat.{TrafficMonitor, Direction}
use ikago.Client.{World, Client, NatIndicator, write_up}
use ikago.Client.Listen.{
  hardware_addr_of, network_bytes, recorded_source, count_both, count_outbound, account_outbound,
  forward, by_network, handle_listen,
}
use ikago.Client.Upstream.{deliver, handle_upstream}

-- The entry that `nat` has for an address, where the address was heard last with the hardware
-- address `mac`: its connection is that of the call, or that of the entry which was there.
pub record Heard {U : Type 0} (ip : Ip) (mac : Bytes) (conn : RawConn) (s t : Client U)
    : Type 0 where
  pub entry : NatIndicator
  pub found : lookup (ip_string ip) t.nat ≡ some entry
  pub device : entry.src_hardware_addr ≡ mac
  pub through : (entry.conn ≡ conn) ⊎ (lookup (ip_string ip) s.nat ≡ some entry)

recorded_source-found :
    (key mac : Bytes) (conn : RawConn) (nat : List (Bytes × NatIndicator))
    → (ni : NatIndicator) × (lookup key (recorded_source key mac conn nat) ≡ some ni)
      × (ni.src_hardware_addr ≡ mac)
      × ((ni.conn ≡ conn) ⊎ (lookup key nat ≡ some ni))
unfolding recorded_source
recorded_source-found key mac conn nat = elim (Option-cases (lookup key nat)) [
  | inl e ↦ rw (recorded_source, e) (fresh, lookup-store_self key fresh nat, refl, inl refl)
  | inr (ni, e) ↦ elim (Bool-cases (text_eq ni.src_hardware_addr mac)) [
    | inl h ↦ rw (recorded_source, e, h) (ni, e, text_eq_sound ni.src_hardware_addr mac h, inr refl)
    | inr h ↦ rw (recorded_source, e, h) (fresh, lookup-store_self key fresh nat, refl, inl refl)
  ]
]
  where
    fresh : NatIndicator
    fresh = record { src_hardware_addr = mac; conn = conn }

by_ok : {A : Type 0} {a b : A} → ok a ≡ ok b → a ≡ b
by_ok e = cc

same_source :
    {i ip : Ip} {m mac : Bytes} {n nat : List (Bytes × NatIndicator)} (conn : RawConn)
    → i ≡ ip
    → m ≡ mac
    → n ≡ nat
    → recorded_source (ip_string i) m conn n ≡ recorded_source (ip_string ip) mac conn nat
same_source conn p q r = rw (p, q, r)

module _ {U : Type 0} (w : World U) where
  count_outbound-nat :
      (now : ℕ) (ind : PacketIndicator) (ip : Ip) (n : ℕ) (nat : List (Bytes × NatIndicator))
      → Keeps (λ (s : Client U). s.nat ≡ nat) (count_outbound w now ind ip n)
  unfolding count_outbound count_both
  count_outbound-nat now ind ip n nat s p = by_monitor s.monitor
    where
      by_monitor :
          (o : Option TrafficMonitor)
          → ((elim o as (λ _. Act (Client U) (Unit {0})) [
            | none ↦ pure tt
            | some m ↦ do
              remote ← lift (dst_ip ind)
              count_both w now ip remote Direction.direction_out n
          ])
              s).1.nat
            ≡ nat
      by_monitor none = p
      by_monitor (some m) =
          lift_holds (λ (s : Client U). s.nat ≡ nat) (dst_ip ind) _ s p (λ remote _. p)

  pub account_outbound-nat :
      (now : ℕ) (ind : PacketIndicator) (ip : Ip) (nat : List (Bytes × NatIndicator))
      → Keeps (λ (s : Client U). s.nat ≡ nat) (account_outbound w now ind ip)
  unfolding account_outbound
  account_outbound-nat now ind ip nat = Keeps-lift (mtu w.gopacket ind) _ (λ n.
      Keeps-bind (count_outbound w now ind ip n) _ (count_outbound-nat now ind ip n nat) (λ _.
        Keeps-lift (transport_protocol ind) _
          (λ _. Keeps-lift (src ind) _ (λ _. Keeps-lift (dst ind) _ (λ _ s p. p)))))

  write_up-nat : (b : Bytes) (n : ℕ) (s t : Client U) → write_up w b s ≡ (ok n, t) → t.nat ≡ s.nat
  unfolding write_up
  write_up-nat b n s t e = sym (ap (λ x. x.1.nat) e)

  forward-nat :
      (now : ℕ) (packet : Packet) (conn : RawConn) (ind : PacketIndicator) (mac : Bytes) (ip : Ip)
      (s t : Client U)
      → hardware_addr_of ind ≡ ok mac
      → src_ip ind ≡ ok ip
      → forward w now packet conn ind s ≡ (ok tt, t)
      → t.nat ≡ recorded_source (ip_string ip) mac conn s.nat
  unfolding forward
  forward-nat now packet conn ind mac ip s t hm hi e =
      let (m, fm, e1) = lift-ok (hardware_addr_of ind) _ s e in
      let (d, fd, e2) = lift-ok (network_bytes w.gopacket packet) _ s e1 in
      let (n, mid, hw, e3) = act-ok (write_up w d) _ s e2 in
      let (i, fi, e4) = lift-ok (src_ip ind) _ mid e3 in
      let stored : Client U = record mid { nat = recorded_source (ip_string i) m conn mid.nat } in
      let kept : t.nat ≡ recorded_source (ip_string i) m conn mid.nat =
        Keeps-to (account_outbound w now ind i) (account_outbound-nat now ind i stored.nat) e4
          refl in
      let same_mac : m ≡ mac = by_ok (sym fm ∙ hm) in
      let same_ip : i ≡ ip = by_ok (sym fi ∙ hi) in
      let before : mid.nat ≡ s.nat = write_up-nat d n s mid hw in
      kept ∙ same_source conn same_ip same_mac before

  pub by_network-forward :
      (now : ℕ) (packet : Packet) (conn : RawConn) (ind : PacketIndicator) (l : Layer)
      → layer_type l ≢ LayerType.arp
      → by_network w now packet conn ind l ≡ forward w now packet conn ind
  unfolding by_network layer_type
  by_network-forward now packet conn ind (Layer.arp a) h = absurd (h refl)
  by_network-forward now packet conn ind (Layer.loopback x) h = refl
  by_network-forward now packet conn ind (Layer.ethernet x) h = refl
  by_network-forward now packet conn ind (Layer.ipv4 x) h = refl
  by_network-forward now packet conn ind (Layer.ipv6 x) h = refl
  by_network-forward now packet conn ind (Layer.tcp x) h = refl
  by_network-forward now packet conn ind (Layer.udp x) h = refl
  by_network-forward now packet conn ind (Layer.icmpv4 x) h = refl
  by_network-forward now packet conn ind (Layer.dns x) h = refl
  by_network-forward now packet conn ind (Layer.fragment x) h = refl
  by_network-forward now packet conn ind (Layer.payload x) h = refl
  by_network-forward now packet conn ind (Layer.other n x) h = refl

  handle_listen-Heard :
      (now : ℕ) (packet : Packet) (conn : RawConn) (ind : PacketIndicator) (l : Layer) (mac : Bytes)
      (ip : Ip) (s t : Client U)
      → parse_packet w.gopacket packet ≡ ok ind
      → ind.network_layer ≡ some l
      → layer_type l ≢ LayerType.arp
      → hardware_addr_of ind ≡ ok mac
      → src_ip ind ≡ ok ip
      → handle_listen w now packet conn s ≡ (ok tt, t)
      → Heard ip mac conn s t
  unfolding handle_listen
  handle_listen-Heard now packet conn ind l mac ip s t hp hl no_arp hm hi e =
      let e1 = rw hp at e in
      let (x, fx, e2) = lift-ok (deref ind.network_layer) _ s e1 in
      let same : l ≡ x = by_ok (sym (ap deref hl) ∙ fx) in
      let other : layer_type x ≢ LayerType.arp = rw (← same) no_arp in
      let e3 = rw (by_network-forward now packet conn ind x other) at e2 in
      let (ni, found, device, through) = recorded_source-found (ip_string ip) mac conn s.nat in
      record {
        entry = ni;
        found = rw (forward-nat now packet conn ind mac ip s t hm hi e3) found;
        device = device;
        through = through;
      }

  -- Once handleListen ended well on a packet that is not ARP, from an address and a hardware address,
  -- a handleUpstream of a packet to that address, at any later state with the same `nat`, delivers it
  -- to an entry with that hardware address; the entry's connection is the one that the packet was
  -- heard on, or the entry was in `nat` before.
  pub handle_upstream-Heard :
      (now later : ℕ) (packet : Packet) (conn : RawConn) (ind back : PacketIndicator) (l : Layer)
      (mac : Bytes) (ip : Ip) (b : ℕ) (rest : Bytes) (s t u : Client U)
      → parse_packet w.gopacket packet ≡ ok ind
      → ind.network_layer ≡ some l
      → layer_type l ≢ LayerType.arp
      → hardware_addr_of ind ≡ ok mac
      → src_ip ind ≡ ok ip
      → handle_listen w now packet conn s ≡ (ok tt, t)
      → u.nat ≡ t.nat
      → parse_emb_packet w.gopacket (b ∷ rest) ≡ ok back
      → dst_ip back ≡ ok ip
      → (heard : Heard ip mac conn s t) × (handle_upstream w later (b ∷ rest) u
          ≡ deliver w later back heard.entry u)
  unfolding handle_upstream
  handle_upstream-Heard now later packet conn ind back l mac ip b rest s t u hp hl no_arp hm hi e
        same hb hd =
      let h = handle_listen-Heard now packet conn ind l mac ip s t hp hl no_arp hm hi e in
      (h, (rw (hb, hd, same, h.found)))
