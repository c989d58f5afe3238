-- ===== src/TcpConn/Tests.antt =====
-- Two packets that come in two pieces, and a third call that waits for more.
use ikago.Base.{ℕ, ◌≡◌, refl, Bytes, List, [], ◌∷◌, take, ok, err, timeout}
use ikago.Crypt.{Crypt}
use ikago.Samples.{counting}
use ikago.Sticky.{rounds}
use ikago.Packet.Parse.{parse_emb_packet}
use ikago.TcpConn.{Socket, TcpConn, new_tcp_conn}
use ikago.TcpConn.Streaming.{Streamed, read_all, read_all-Streamed}

abbrev pieces : Socket (List Bytes)
pieces = record {
  read = λ n bs. elim bs [ [] ↦ (err timeout, []) | b ∷ rest ↦ (ok (take n b), rest) ];
  write = λ b bs. (ok 0, bs);
}

abbrev fresh_conn : TcpConn (List Bytes)
fresh_conn = new_tcp_conn 1 ((2 ∷ 7 ∷ 3 ∷ []) ∷ (0 ∷ 0 ∷ []) ∷ []) Crypt.plain

abbrev returned : List (Bytes × ℕ)
returned = (2 ∷ 7 ∷ [], 2) ∷ (3 ∷ 0 ∷ 0 ∷ [], 3) ∷ []

abbrev last_conn : TcpConn (List Bytes)
last_conn = (read_all pieces counting 1500 (2 ∷ 3 ∷ []) fresh_conn).1

all_read : read_all pieces counting 1500 (2 ∷ 3 ∷ []) fresh_conn ≡ (ok returned, last_conn)
unfolding read_all new_tcp_conn rounds parse_emb_packet
all_read = refl

read_all-Streamed_example : Streamed pieces counting 1500 fresh_conn last_conn returned
read_all-Streamed_example =
    read_all-Streamed pieces counting 1500 (2 ∷ 3 ∷ []) fresh_conn last_conn returned all_read
