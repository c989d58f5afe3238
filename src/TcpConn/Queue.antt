-- ===== src/TcpConn/Queue.antt =====
-- `Read` of internal/pcap/tcpconn.go as a queue of packets: the stash with its index is what is left
-- to hand out.
use ikago.Base.{
  ℕ, zero, suc, ◌+◌, ◌<◌, ◌≡◌, refl, sym, ap, ◌∙◌, inl, inr, false, Bool-cases, Bytes, List, [],
  ◌∷◌, length, take, drop, get_elem?, some, Result, ok, err, panic, ltb, arith,
}
use ikago.Calls.Keeping.{act-ok, lift-ok}
use ikago.Gopacket.{Gopacket}
use ikago.Crypt.{decrypt}
use ikago.Sticky.{Desticker, append_sticky}
use ikago.TcpConn.{
  Socket, TcpConn, buffer_size, conn_read, destick_append, take_stashed, stash_packets, refill,
  read,
}

-- The packets that are left to hand out.
abbrev pub pending : {C : Type 0} → TcpConn C → List Bytes
pending c = drop c.stash_id c.stash

-- A call of `Read` that ended well: the packet that it handed out, if any, was the first of the
-- queue, and the connection was read only where the queue was empty.
pub data Next {C : Type 0} (socket : Socket C) (g : Gopacket) (now room : ℕ) (c c' : TcpConn C)
    : Bytes × ℕ → List Bytes → Type 0 where
  stashed :
      (p : Bytes) (ps : List Bytes)
      → pending c ≡ p ∷ ps
      → pending c' ≡ ps
      → c'.conn ≡ c.conn
      → c'.destick ≡ c.destick
      → c'.crypt ≡ c.crypt
      → Next socket g now room c c' (take room p, length p) (p ∷ [])
  waits :
      (raw dp : Bytes)
      → pending c ≡ []
      → socket.read buffer_size c.conn ≡ (ok raw, c'.conn)
      → decrypt c.crypt raw ≡ ok dp
      → append_sticky g now dp c.destick ≡ ok ([], c'.destick)
      → pending c' ≡ []
      → c'.crypt ≡ c.crypt
      → Next socket g now room c c' ([], 0) []
  fresh :
      (raw dp p : Bytes) (ps : List Bytes)
      → pending c ≡ []
      → socket.read buffer_size c.conn ≡ (ok raw, c'.conn)
      → decrypt c.crypt raw ≡ ok dp
      → append_sticky g now dp c.destick ≡ ok (p ∷ ps, c'.destick)
      → pending c' ≡ ps
      → c'.crypt ≡ c.crypt
      → Next socket g now room c c' (take room p, length p) (p ∷ [])

drop-get_elem? :
    (xs : List Bytes) (i : ℕ)
    → i < length xs
    → (p : Bytes) × (get_elem? xs i ≡ some p) × (drop i xs ≡ p ∷ drop (i + 1) xs)
drop-get_elem? [] i h = elim h [ ]
drop-get_elem? (x ∷ xs) zero h = (x, refl, refl)
drop-get_elem? (x ∷ xs) (suc i) h =
    let (p, hp, hd) = drop-get_elem? xs i (omega arith) in
    let e : suc i + 1 ≡ suc (i + 1) = omega arith in (p, hp, rw e hd)

drop-past : (xs : List Bytes) (i : ℕ) → ltb i (length xs) ≡ false → drop i xs ≡ []
drop-past [] zero h = refl
drop-past [] (suc i) h = refl
drop-past (x ∷ xs) zero h = ground arith
drop-past (x ∷ xs) (suc i) h = drop-past xs i (ground arith)

module _ {C : Type 0} (socket : Socket C) (g : Gopacket) where
  taken :
      (room : ℕ) (c c' : TcpConn C) (r : Bytes × ℕ)
      → c.stash_id < length c.stash
      → take_stashed socket g room c ≡ (ok r, c')
      → (p : Bytes) × (pending c ≡ p ∷ pending c')
        × ((take room p, length p) ≡ r)
        × (c'.conn ≡ c.conn)
        × (c'.destick ≡ c.destick)
        × (c'.crypt ≡ c.crypt)
  unfolding take_stashed
  taken room c c' r h e =
      let (p, hp, hd) = drop-get_elem? c.stash c.stash_id h in
      let e1 = rw (take_stashed, hp) at e in
      let at : record c { stash_id = c.stash_id + 1 } ≡ c' = ap (λ x. x.1) e1 in
      let out : (take room p, length p) ≡ r =
        (let f : ok (take room p, length p) ≡ ok r = ap (λ x. x.0) e1 in cc) in
      (
        p,
        hd ∙ ap (λ (x : TcpConn C). p ∷ drop x.stash_id x.stash) at,
        out,
        sym (ap (λ (x : TcpConn C). x.conn) at),
        sym (ap (λ (x : TcpConn C). x.destick) at),
        sym (ap (λ (x : TcpConn C). x.crypt) at),
      )

  conn_read-ok :
      (n : ℕ) (c c' : TcpConn C) (raw : Bytes)
      → conn_read socket g n c ≡ (ok raw, c')
      → (socket.read n c.conn ≡ (ok raw, c'.conn)) × (record c { conn = c'.conn } ≡ c')
  unfolding conn_read
  conn_read-ok n c c' raw e =
      let at : record c { conn = (socket.read n c.conn).1 } ≡ c' = ap (λ x. x.1) e in
      (
        ap (λ x. (x.0, x.1.conn)) e,
        sym (ap (λ (x : TcpConn C). record c { conn = x.conn }) at) ∙ at,
      )

  destick_append-ok :
      (now : ℕ) (dp : Bytes) (c c' : TcpConn C) (packets : List Bytes)
      → destick_append socket g now dp c ≡ (ok packets, c')
      → (append_sticky g now dp c.destick ≡ ok (packets, c'.destick))
        × (record c { destick = c'.destick } ≡ c')
  unfolding destick_append
  destick_append-ok now dp c c' packets e = by_end (append_sticky g now dp c.destick) refl e
    where
      by_end :
          (r : Result (List Bytes × Desticker))
          → append_sticky g now dp c.destick ≡ r
          → (elim r as (λ _. Result (List Bytes) × TcpConn C) [
            | ok (packets, d) ↦ (ok packets, record c { destick = d })
            | err e ↦ (err e, c)
            | panic ↦ (panic, c)
          ])
            ≡ (ok packets, c')
          → (append_sticky g now dp c.destick ≡ ok (packets, c'.destick))
            × (record c { destick = c'.destick } ≡ c')
      by_end (ok (ps, d)) h e =
          let at : record c { destick = d } ≡ c' = ap (λ x. x.1) e in
          let out : ps ≡ packets = (let f : ok ps ≡ ok packets = ap (λ x. x.0) e in cc) in
          (
            h ∙ ap (λ x. ok (x, d)) out ∙ ap (λ (x : TcpConn C). ok (packets, x.destick)) at,
            sym (ap (λ (x : TcpConn C). record c { destick = x.destick }) at) ∙ at,
          )
      by_end (err x) h e = let f : err x ≡ ok packets = ap (λ y. y.0) e in cc
      by_end panic h e = let f : panic ≡ ok packets = ap (λ y. y.0) e in cc

  stash_packets-Next :
      (now room : ℕ) (raw dp : Bytes) (packets : List Bytes) (c c' : TcpConn C) (conn : C)
      (d : Desticker) (r : Bytes × ℕ)
      → pending c ≡ []
      → socket.read buffer_size c.conn ≡ (ok raw, conn)
      → decrypt c.crypt raw ≡ ok dp
      → append_sticky g now dp c.destick ≡ ok (packets, d)
      → stash_packets socket g room packets (record c { conn = conn; destick = d }) ≡ (ok r, c')
      → (out : List Bytes) × Next socket g now room c c' r out
  unfolding stash_packets
  stash_packets-Next now room raw dp [] c c' conn d r empty hr hk ha hs =
      let at : record c { conn = conn; destick = d } ≡ c' = ap (λ x. x.1) hs in
      let out : ([], 0) ≡ r = (let f : ok ([], 0) ≡ ok r = ap (λ x. x.0) hs in cc) in
      ([], rw (← at, ← out) (Next.waits raw dp empty hr hk ha empty refl))
  stash_packets-Next now room raw dp (p ∷ ps) c c' conn d r empty hr hk ha hs =
      let (q, hp, out, same, kept, keyed) =
        taken room (record c { conn = conn; destick = d; stash = p ∷ ps; stash_id = 0 }) c' r
          (omega arith) hs in
      let first : p ≡ q = cc in
      let rest : ps ≡ pending c' = cc in
      (
        p ∷ [],
        rw (← out, ← first)
            (Next.fresh raw dp p ps empty (hr ∙ ap (λ x. (ok raw, x)) (sym same)) hk
              (ha ∙ ap (λ x. ok (p ∷ ps, x)) (sym kept)) (sym rest) keyed),
      )

  refill-Next :
      (now room : ℕ) (c c' : TcpConn C) (r : Bytes × ℕ)
      → pending c ≡ []
      → refill socket g now room c ≡ (ok r, c')
      → (out : List Bytes) × Next socket g now room c c' r out
  unfolding refill
  refill-Next now room c c' r empty e =
      let (raw, d, e1, e2) = act-ok (conn_read socket g buffer_size) _ c e in
      let (hr, hd) = conn_read-ok buffer_size c d raw e1 in
      let (dp, hk, e3) = lift-ok (decrypt d.crypt raw) _ d e2 in
      let (packets, f, e4, e5) = act-ok (destick_append socket g now dp) _ d e3 in
      let (ha, hf) = destick_append-ok now dp d f packets e4 in
      let whole : f ≡ record c { conn = d.conn; destick = f.destick } =
        sym hf ∙ ap (λ (x : TcpConn C). record x { destick = f.destick }) (sym hd) in
      stash_packets-Next now room raw dp packets c c' d.conn f.destick r empty hr
        (ap (λ (x : TcpConn C). decrypt x.crypt raw) hd ∙ hk)
        (ap (λ (x : TcpConn C). append_sticky g now dp x.destick) hd ∙ ha)
        (ap (stash_packets socket g room packets) (sym whole) ∙ e5)

  -- A `Read` that ends well hands out the first packet of the queue, in full where the buffer has the
  -- room, and returns its length. Where the queue is empty it reads the connection, and the packets
  -- that the desticker cuts out of what was read and decrypted become the queue; where there are none
  -- it returns nothing.
  pub read-Next :
      (now room : ℕ) (c c' : TcpConn C) (r : Bytes × ℕ)
      → read socket g now room c ≡ (ok r, c')
      → (out : List Bytes) × Next socket g now room c c' r out
  unfolding read
  read-Next now room c c' r e = elim (Bool-cases (ltb c.stash_id (length c.stash))) [
    | inl h ↦
        let e1 = rw h at e in
        let (p, hp, out, same, kept, keyed) = taken room c c' r (ground arith) e1 in
        (p ∷ [], rw (← out) (Next.stashed p (pending c') hp refl same kept keyed))
    | inr h ↦ refill-Next now room c c' r (drop-past c.stash c.stash_id h) (rw h at e)
  ]
