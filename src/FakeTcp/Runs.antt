-- ===== src/FakeTcp/Runs.antt =====
-- What is known of an operation that ended well, and the map of the clients.
use ikago.Base.{
  ◌≡◌, refl, sym, ap, ◌∙◌, inl, inr, Bool, Bytes, List, [], ◌∷◌, ◌++◌, append-nil, append_assoc,
  some, Option-cases, Bool-cases, ok, err, panic, text_eq, text_eq_self, add16,
}
use ikago.FakeTcp.{
  World, ClientIndicator, FakeTcpConn, Run, and_then, reading, find_client, put_client,
  write_packet, write_packets, Target, handshake_packet, shake,
}

-- Inversion of a part and what follows it.
pub and_then-ok {ℓ κ} :
    {A : Type ℓ} {B : Type κ} (r : Run A) (next : A → FakeTcpConn → Run B) {b : B} {c : FakeTcpConn}
    → and_then r next ≡ (ok b, c)
    → (a : A) × (d : FakeTcpConn) × (r ≡ (ok a, d)) × (next a d ≡ (ok b, c))
and_then-ok (ok a, d) next h = (a, d, refl, h)
and_then-ok (err e, d) next h = cc
and_then-ok (panic, d) next h = cc

pub find_client-put :
    (key : Bytes) (v : ClientIndicator) (m : List (Bytes × ClientIndicator))
    → find_client key (put_client key v m) ≡ some v
unfolding find_client put_client
find_client-put key v [] = rw (text_eq_self key)
find_client-put key v ((k, old) ∷ rest) = elim (Bool-cases (text_eq key k)) [
  | inl e ↦ rw (e, text_eq_self key)
  | inr e ↦ rw (e, e) (find_client-put key v rest)
]

-- The connection behind packets that were written, and behind a packet of its own.
abbrev pub pushed : List Bytes → FakeTcpConn → FakeTcpConn
pushed ps c = record c { sent = c.sent ++ ps }

abbrev pub with_sent : FakeTcpConn → List Bytes → FakeTcpConn
with_sent c s = record c { sent = s }

abbrev pub bumped : FakeTcpConn → FakeTcpConn
bumped c = record c { id = add16 c.id 1 }

-- A packet that was written is the last of those sent, and nothing else changed.
pub write_packet-ok :
    (w : World) (packet : Bytes) (c d : FakeTcpConn) (v : Unit {0})
    → write_packet w packet c ≡ (ok v, d)
    → d ≡ pushed (packet ∷ []) c
unfolding write_packet
write_packet-ok w packet c d v h = elim (Option-cases (w.refuses c.sent packet)) [
  | inl e ↦
      let made : write_packet w packet c ≡ (ok tt, pushed (packet ∷ []) c) = rw (e, write_packet) in
      let same : pushed (packet ∷ []) c ≡ d = cc in sym same
  | inr (x, e) ↦ let stuck : write_packet w packet c ≡ (err x, c) = rw (e, write_packet) in cc
]

pub write_packets-ok :
    (w : World) (packets : List Bytes) (c d : FakeTcpConn) (v : Unit {0})
    → write_packets w packets c ≡ (ok v, d)
    → d ≡ pushed packets c
unfolding write_packets
write_packets-ok w [] c d v h =
    let same : c ≡ d = cc in sym same ∙ ap (with_sent c) (sym (append-nil c.sent))
write_packets-ok w (p ∷ rest) c d v h =
    let (u, mid, h1, h2) = and_then-ok (write_packet w p c) _ h in
    let e1 = write_packet-ok w p c mid u h1 in
    let e2 = write_packets-ok w rest mid d v h2 in
    e2 ∙ ap (pushed rest) e1 ∙ ap (with_sent c) (append_assoc c.sent (p ∷ []) rest)

-- A handshake that ended well sent its packet, and moved the identification on.
pub shake-ok :
    (w : World) (t : Target) (client : ClientIndicator) (syn ack : Bool) (c d : FakeTcpConn)
    (v : Unit {0})
    → shake w t client syn ack c ≡ (ok v, d)
    → (packet : Bytes) × (handshake_packet w c t client syn ack ≡ ok packet)
      × (d ≡ bumped (pushed (packet ∷ []) c))
unfolding shake
shake-ok w t client syn ack c d v h =
    let (packet, m1, h1, h2) =
      and_then-ok (reading (handshake_packet w c t client syn ack) c) _ h in
    let (u, m2, h3, h4) = and_then-ok (write_packet w packet m1) _ h2 in
    let e1 : c ≡ m1 = cc in
    let made : handshake_packet w c t client syn ack ≡ ok packet = cc in
    let e2 = write_packet-ok w packet m1 m2 u h3 in
    let e3 : bumped m2 ≡ d = cc in
    (packet, made, sym e3 ∙ ap bumped e2 ∙ ap (λ m. bumped (pushed (packet ∷ []) m)) (sym e1))
