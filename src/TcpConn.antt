-- ===== src/TcpConn.antt =====
-- internal/pcap/tcpconn.go: packets over a TCP connection, encrypted, and cut out of the stream by
-- the desticker. The TCP connection of Go's package net is a parameter, and a clock an argument.
pub mod Queue
pub mod Streaming
mod Tests
use ikago.Base.{
  ℕ, ◌+◌, ◌*◌, ◌^◌, ◌<◌, Bytes, List, [], ◌∷◌, length, take, drop, get_elem?, Option, none, some,
  Result, ok, err, panic, ltb, if◌then◌else◌,
}
use ikago.Calls.{Act, pure, lift, reads, modify, ◌>>=◌, ◌>>◌}
use ikago.Gopacket.{Gopacket}
use ikago.Crypt.{Crypt, Random, encrypt, decrypt}
use ikago.Sticky.{Desticker, new_desticker, set_sticky_deadline, append_sticky}

-- net.TCPConn: `read` takes the length of the buffer, and `write` returns what was written.
pub record Socket (C : Type 0) : Type 0 where
  pub read : ℕ → Act C Bytes
  pub write : Bytes → Act C ℕ

-- `keepSticky`: 30 seconds.
abbrev pub keep_sticky : ℕ
keep_sticky = 30 * 10 ^ 9

abbrev pub buffer_size : ℕ
buffer_size = 65535

pub record TcpConn (C : Type 0) : Type 0 where
  pub conn : C
  pub crypt : Crypt
  pub destick : Desticker
  pub stash : List Bytes
  pub stash_id : ℕ

-- `newTCPConn`, with what DialTCP and Accept put into it.
unfoldable pub new_tcp_conn : {C : Type 0} → ℕ → C → Crypt → TcpConn C
unfolding new_desticker set_sticky_deadline
new_tcp_conn now conn crypt = record {
  conn = conn;
  crypt = crypt;
  destick = set_sticky_deadline keep_sticky (new_desticker now);
  stash = [];
  stash_id = 0;
}

module _ {C : Type 0} (socket : Socket C) (g : Gopacket) where
  -- `c.conn.Read` and `c.conn.Write`.
  unfoldable pub conn_read : ℕ → Act (TcpConn C) Bytes
  conn_read n c = let (r, conn) = socket.read n c.conn in (r, record c { conn = conn })

  unfoldable pub conn_write : Bytes → Act (TcpConn C) ℕ
  conn_write b c = let (r, conn) = socket.write b c.conn in (r, record c { conn = conn })

  -- `c.destick.Append`: an error of the model's parser leaves the desticker as it was.
  unfoldable pub destick_append : ℕ → Bytes → Act (TcpConn C) (List Bytes)
  unfolding append_sticky
  destick_append now data_bytes c = elim (append_sticky g now data_bytes c.destick) [
    | ok (packets, d) ↦ (ok packets, record c { destick = d })
    | err e ↦ (err e, c)
    | panic ↦ (panic, c)
  ]

  -- What `Read` leaves in a buffer of `room` bytes, and what it returns: the length of the packet.
  unfoldable pub take_stashed : ℕ → Act (TcpConn C) (Bytes × ℕ)
  take_stashed room c = elim (get_elem? c.stash c.stash_id) [
    | none ↦ (panic, c)
    | some packet ↦ (ok (take room packet, length packet), record c { stash_id = c.stash_id + 1 })
  ]

  -- The packets that were read are stashed; where there are none, `Read` returns nothing.
  unfoldable pub stash_packets : ℕ → List Bytes → Act (TcpConn C) (Bytes × ℕ)
  unfolding take_stashed
  stash_packets room [] = pure ([], 0)
  stash_packets room (p ∷ ps) = do
    modify (λ c. record c { stash = p ∷ ps; stash_id = 0 })
    take_stashed room

  unfoldable pub refill : ℕ → ℕ → Act (TcpConn C) (Bytes × ℕ)
  unfolding conn_read decrypt destick_append stash_packets
  refill now room = do
    contents ← conn_read buffer_size
    crypt ← reads (λ c. c.crypt)
    dp ← lift (decrypt crypt contents)
    packets ← destick_append now dp
    stash_packets room packets

  -- `Read`, into a buffer of `room` bytes.
  unfoldable pub read : ℕ → ℕ → Act (TcpConn C) (Bytes × ℕ)
  unfolding take_stashed refill
  read now room = do
    stashed ← reads (λ c. ltb c.stash_id (length c.stash))
    if stashed then take_stashed room else refill now room

  -- `Write`: it returns what the connection returns, the length of the encrypted data.
  unfoldable pub write : Random → Bytes → Act (TcpConn C) ℕ
  unfolding encrypt conn_write
  write random b = do
    crypt ← reads (λ c. c.crypt)
    contents ← lift (encrypt random crypt b)
    conn_write contents
