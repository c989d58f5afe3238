-- ===== src/TcpConn/Streaming.antt =====
-- Many calls of `Read` of internal/pcap/tcpconn.go, on the desticker of internal/pcap/sticky.go: the
-- packets that come out are those of the stream that was read and decrypted.
use ikago.Base.{
  ℕ, ◌≡◌, refl, sym, ap, ◌∙◌, Bytes, List, [], ◌∷◌, ◌++◌, append-nil, length, take, ok,
}
use ikago.Calls.{Act, pure}
use ikago.Calls
use ikago.Calls.Keeping.{act-ok}
use ikago.Gopacket.{Gopacket}
use ikago.Crypt.{Crypt, decrypt}
use ikago.Sticky.Frames.Stream.{feed}
use ikago.TcpConn.{Socket, TcpConn, buffer_size, read}
use ikago.TcpConn.Queue.{Next, pending, read-Next}

-- Calls of `Read` at the given times, into buffers of `room` bytes.
unfoldable pub read_all :
    {C : Type 0} → Socket C → Gopacket → ℕ → List ℕ → Act (TcpConn C) (List (Bytes × ℕ))
unfolding read
read_all socket g room [] = pure []
read_all socket g room (now ∷ later) =
    Calls.◌>>=◌ (read socket g now room)
      (λ r. Calls.◌>>=◌ (read_all socket g room later) (λ rs. pure (r ∷ rs)))

-- What the calls returned: a packet, as far as the buffer had the room, or nothing.
pub data Handed (room : ℕ) : List (Bytes × ℕ) → List Bytes → Type 0 where
  all : Handed room [] []
  packet :
      {rs : List (Bytes × ℕ)} {ps : List Bytes} (p : Bytes)
      → Handed room rs ps
      → Handed room ((take room p, length p) ∷ rs) (p ∷ ps)
  nothing :
      {rs : List (Bytes × ℕ)} {ps : List Bytes} → Handed room rs ps → Handed room (([], 0) ∷ rs) ps

-- What was read from the connection and decrypted, and when.
pub data Took {C : Type 0} (socket : Socket C) (crypt : Crypt)
    : C → List (ℕ × Bytes) → C → Type 0 where
  end : (c : C) → Took socket crypt c [] c
  more :
      {c m c' : C} {cs : List (ℕ × Bytes)} (now : ℕ) (raw dp : Bytes)
      → socket.read buffer_size c ≡ (ok raw, m)
      → decrypt crypt raw ≡ ok dp
      → Took socket crypt m cs c'
      → Took socket crypt c ((now, dp) ∷ cs) c'

Took-along :
    {C : Type 0} {socket : Socket C} {k k' : Crypt} {a a' c : C} {cs : List (ℕ × Bytes)}
    → k ≡ k'
    → a ≡ a'
    → Took socket k a cs c
    → Took socket k' a' cs c
Took-along e f t = rw (← e, ← f) t

pub record Streamed {C : Type 0} (socket : Socket C) (g : Gopacket) (room : ℕ) (c c' : TcpConn C)
    (rs : List (Bytes × ℕ)) : Type 0 where
  pub chunks : List (ℕ × Bytes)
  pub took : Took socket c.crypt c.conn chunks c'.conn
  pub packets : List Bytes
  pub cut : feed g chunks c.destick ≡ ok (packets, c'.destick)
  pub out : List Bytes
  pub handed : Handed room rs out
  pub queue : pending c ++ packets ≡ out ++ pending c'

module _ {C : Type 0} (socket : Socket C) (g : Gopacket) (room : ℕ) where
  joined :
      (now : ℕ) (c m c' : TcpConn C) (r : Bytes × ℕ) (rs : List (Bytes × ℕ)) (out : List Bytes)
      → Next socket g now room c m r out
      → Streamed socket g room m c' rs
      → Streamed socket g room c c' (r ∷ rs)
  unfolding feed
  joined now c m c' r rs out (Next.stashed p ps hc hm same kept keyed) s = record {
    chunks = s.chunks;
    took = Took-along keyed same s.took;
    packets = s.packets;
    cut = ap (feed g s.chunks) (sym kept) ∙ s.cut;
    out = p ∷ s.out;
    handed = Handed.packet p s.handed;
    queue = ap (λ x. x ++ s.packets) (hc ∙ ap (λ x. p ∷ x) (sym hm)) ∙ ap (λ x. p ∷ x) s.queue;
  }
  joined now c m c' r rs out (Next.waits raw dp hc hr hk ha hm keyed) s = record {
    chunks = (now, dp) ∷ s.chunks;
    took = Took.more now raw dp hr hk (Took-along keyed refl s.took);
    packets = s.packets;
    cut = rw (ha, s.cut) refl;
    out = s.out;
    handed = Handed.nothing s.handed;
    queue = ap (λ x. x ++ s.packets) (hc ∙ sym hm) ∙ s.queue;
  }
  joined now c m c' r rs out (Next.fresh raw dp p ps hc hr hk ha hm keyed) s = record {
    chunks = (now, dp) ∷ s.chunks;
    took = Took.more now raw dp hr hk (Took-along keyed refl s.took);
    packets = p ∷ ps ++ s.packets;
    cut = rw (ha, s.cut) refl;
    out = p ∷ s.out;
    handed = Handed.packet p s.handed;
    queue =
        ap (λ x. x ++ (p ∷ ps ++ s.packets)) hc
        ∙ ap (λ x. p ∷ x ++ s.packets) (sym hm)
        ∙ ap (λ x. p ∷ x) s.queue;
  }

  -- Calls of `Read` that all end well hand out packets, each in full where the buffer has the room.
  -- They are, in order, the packets of the queue and behind them those that the desticker cuts out of
  -- what was read from the connection and decrypted, up to the packets that are in the queue then.
  pub read_all-Streamed :
      (times : List ℕ) (c c' : TcpConn C) (rs : List (Bytes × ℕ))
      → read_all socket g room times c ≡ (ok rs, c')
      → Streamed socket g room c c' rs
  unfolding read_all feed
  read_all-Streamed [] c c' rs e =
      let at : c ≡ c' = ap (λ x. x.1) e in
      let none_read : [] ≡ rs = (let f : ok [] ≡ ok rs = ap (λ x. x.0) e in cc) in
      rw (← at, ← none_read)
        (record {
          chunks = [];
          took = Took.end c.conn;
          packets = [];
          cut = refl;
          out = [];
          handed = Handed.all;
          queue = append-nil (pending c);
        })
  read_all-Streamed (now ∷ later) c c' rs e =
      let (r, m, e1, e2) = act-ok (read socket g now room) _ c e in
      let (left, d, e3, e4) = act-ok (read_all socket g room later) _ m e2 in
      let (out, next) = read-Next socket g now room c m r e1 in
      let at : d ≡ c' = ap (λ x. x.1) e4 in
      let all_read : r ∷ left ≡ rs = (let f : ok (r ∷ left) ≡ ok rs = ap (λ x. x.0) e4 in cc) in
      rw (← at, ← all_read) (joined now c m d r left out next (read_all-Streamed later m d left e3))
