-- ===== src/Client/Others.antt =====
-- `handleListen` of cmd/ikago-client/main.go, whatever it returns: the entries of `nat` that it
-- leaves alone.
use ikago.Base.{
  ℕ, Bytes, List, [], ◌∷◌, ◌++◌, ◌≡◌, ◌∙◌, refl, ap, Bool-cases, false, Option, none, some,
  Option-cases, inl, inr, ◌⊎◌, ◌≢◌, Error, Result, ok, err, deref, lookup, lookup-store_ne, text_eq,
}
use ikago.Calls.{Act, lift, modify, ◌>>=◌}
use ikago.Calls.Keeping.{Keeps, Keeps-lift, Keeps-bind, lift_holds, Keeps-lift_ok}
use ikago.Addr.{Ip, ip_string}
use ikago.Gopacket.{Layer, LayerType, Arp, layer_type, Packet}
use ikago.Device.{RawConn}
use ikago.Layers.{serialize}
use ikago.Packet.{PacketIndicator, src_ip, dst_ip}
use ikago.Packet.Parse.{parse_packet}
use ikago.Client.{World, Client, NatIndicator, write_raw, write_up, reconnect_up}
use ikago.Client.Publish.{only_arp, new_link_layer, publish}
use ikago.Client.Listen.{
  hardware_addr_of, network_bytes, recorded_source, account_outbound, forward, by_network,
  handle_listen,
}
use ikago.Client.Known.{account_outbound-nat, by_network-forward}

recorded_source-ne :
    (key other mac : Bytes) (conn : RawConn) (nat : List (Bytes × NatIndicator))
    → text_eq other key ≡ false
    → lookup other (recorded_source key mac conn nat) ≡ lookup other nat
unfolding recorded_source
recorded_source-ne key other mac conn nat h = elim (Option-cases (lookup key nat)) [
  | inl e ↦ rw (recorded_source, e) (lookup-store_ne key other _ nat h)
  | inr (ni, e) ↦ elim (Bool-cases (text_eq ni.src_hardware_addr mac)) [
    | inl f ↦ rw (recorded_source, e, f) refl
    | inr f ↦ rw (recorded_source, e, f) (lookup-store_ne key other _ nat h)
  ]
]

arp-cases : (l : Layer) → ((a : Arp) × (l ≡ Layer.arp a)) ⊎ (layer_type l ≢ LayerType.arp)
unfolding layer_type
arp-cases (Layer.arp a) = inl (a, refl)
arp-cases (Layer.loopback x) = inr (λ e. cc)
arp-cases (Layer.ethernet x) = inr (λ e. cc)
arp-cases (Layer.ipv4 x) = inr (λ e. cc)
arp-cases (Layer.ipv6 x) = inr (λ e. cc)
arp-cases (Layer.tcp x) = inr (λ e. cc)
arp-cases (Layer.udp x) = inr (λ e. cc)
arp-cases (Layer.icmpv4 x) = inr (λ e. cc)
arp-cases (Layer.dns x) = inr (λ e. cc)
arp-cases (Layer.fragment x) = inr (λ e. cc)
arp-cases (Layer.payload x) = inr (λ e. cc)
arp-cases (Layer.other n x) = inr (λ e. cc)

module _ {U : Type 0} (w : World U) (other : Bytes) (o : Option NatIndicator) where
  -- `nat` has `o` for the address `other`.
  abbrev Has : Client U → Type 0
  Has s = lookup other s.nat ≡ o

  write_raw-Has : (conn : RawConn) (b : Bytes) → Keeps Has (write_raw w conn b)
  unfolding write_raw
  write_raw-Has conn b s h = by_answer (w.refuses s.written conn b)
    where
      by_answer :
          (o : Option Error)
          → Has
              (elim o as (λ _. Result (Unit {0}) × Client U) [
                | some e ↦ (err e, s)
                | none ↦ (ok tt, record s { written = s.written ++ (conn, b) ∷ [] })
              ]).1
      by_answer none = h
      by_answer (some x) = h

  publish-Has : (packet : Packet) (conn : RawConn) → Keeps Has (publish w packet conn)
  unfolding publish reconnect_up
  publish-Has packet conn = Keeps-lift (parse_packet w.gopacket packet) _ (λ ind.
      Keeps-lift (only_arp ind) _ (λ a. Keeps-lift (new_link_layer conn packet) _ (λ link.
        Keeps-lift (serialize w.gopacket _) _ (λ b.
          Keeps-bind (write_raw w conn b) _ (write_raw-Has conn b) (λ _.
            Keeps-bind (reconnect_up w) _ (λ s h. h)
              (λ _. Keeps-lift (src_ip ind) _ (λ _. Keeps-lift (dst_ip ind) _ (λ _ s h. h))))))))

  forward-Has :
      (now : ℕ) (packet : Packet) (conn : RawConn) (ind : PacketIndicator)
      → ((ip : Ip) → src_ip ind ≡ ok ip → text_eq other (ip_string ip) ≡ false)
      → Keeps Has (forward w now packet conn ind)
  unfolding forward write_up
  forward-Has now packet conn ind apart = Keeps-lift (hardware_addr_of ind) _ (λ mac.
      Keeps-lift (network_bytes w.gopacket packet) _ (λ b.
        Keeps-bind (write_up w b) _ (λ s h. h)
          (λ _. Keeps-lift_ok (src_ip ind) _ (λ ip e.
            Keeps-bind (recording mac ip) (λ _. account_outbound w now ind ip)
              (λ t k. recorded_source-ne (ip_string ip) other mac conn t.nat (apart ip e) ∙ k)
              (λ _ t k. ap (lookup other) (account_outbound-nat w now ind ip t.nat t refl) ∙ k)))))
    where
      recording : Bytes → Ip → Act (Client U) (Unit {0})
      recording mac ip =
          modify (λ s. record s { nat = recorded_source (ip_string ip) mac conn s.nat })

  by_network-Has :
      (now : ℕ) (packet : Packet) (conn : RawConn) (ind : PacketIndicator) (l : Layer)
      → ((ip : Ip) → src_ip ind ≡ ok ip → text_eq other (ip_string ip) ≡ false)
      → Keeps Has (by_network w now packet conn ind l)
  unfolding by_network publish
  by_network-Has now packet conn ind l apart = elim (arp-cases l) [
    | inl (a, e) ↦ rw (e, by_network) (publish-Has packet conn)
    | inr n ↦
        rw (by_network-forward w now packet conn ind l n) (forward-Has now packet conn ind apart)
  ]

  -- A handleListen leaves the entry of every other address as it is, whatever it returns: of every
  -- address but the source of the packet that it parsed.
  pub handle_listen-Has :
      (now : ℕ) (packet : Packet) (conn : RawConn) (s : Client U)
      → ((ind : PacketIndicator) (ip : Ip)
          → parse_packet w.gopacket packet ≡ ok ind
          → src_ip ind ≡ ok ip
          → text_eq other (ip_string ip) ≡ false)
      → lookup other s.nat ≡ o
      → lookup other (handle_listen w now packet conn s).1.nat ≡ o
  unfolding handle_listen
  handle_listen-Has now packet conn s apart h =
      lift_holds Has (parse_packet w.gopacket packet)
        (λ ind. lift (deref ind.network_layer) >>= by_network w now packet conn ind) s h
        (λ ind e.
          lift_holds Has (deref ind.network_layer) (by_network w now packet conn ind) s h
            (λ l _. by_network-Has now packet conn ind l (λ ip f. apart ind ip e f) s h))
