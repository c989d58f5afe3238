-- ===== src/FakeTcp/Loop.antt =====
-- The loop of `ReadFrom` of internal/pcap/faketcpconn.go, which reads the handle until a packet is
-- whole, and `Write`. Each packet comes with the time at which
-- it is put together; a call that is still waiting when there are no more packets returns none.
use ikago.Base.{ℕ, Bytes, List, [], ◌∷◌, Option, none, some, Result, ok, ◌>>=◌, deref}
use ikago.Addr.{Addr}
use ikago.Gopacket.{Packet}
use ikago.Packet.{PacketIndicator}
use ikago.Packet.Parse.{parse_packet}
use ikago.Fragment.Defrag.{append_original}
use ikago.FakeTcp.{World, FakeTcpConn, Run, and_then, reading}
use ikago.FakeTcp.Transfer.{read_from, write_to}

-- `c.defrag.Append`.
unfoldable pub defrag_append :
    World → ℕ → PacketIndicator → FakeTcpConn → Run (Option PacketIndicator)
unfolding append_original
defrag_append w now ind c =
    let (r, d) = append_original w.gopacket now c.defrag ind in
    (
      r >>= λ o. ok (elim o [ none ↦ none | some (whole, originals) ↦ some whole ]),
      record c { defrag = d },
    )

-- What one turn does with a packet that was read.
unfoldable pub take_packet : World → ℕ → Result Packet → FakeTcpConn → Run (Option PacketIndicator)
unfolding parse_packet defrag_append
take_packet w now p c =
    and_then (reading (p >>= λ packet. parse_packet w.gopacket packet) c) (defrag_append w now)

-- The loop: it ends at the first packet that is whole, or at an error.
unfoldable pub read_packets :
    World → List (ℕ × Result Packet) → FakeTcpConn → Run (Option PacketIndicator)
unfolding take_packet
read_packets w [] c = (ok none, c)
read_packets w ((now, p) ∷ later) c =
    and_then (take_packet w now p c)
      (λ o d. elim o [ some ind ↦ (ok (some ind), d) | none ↦ read_packets w later d ])

-- `ReadFrom`: the loop, and what it does with the packet.
unfoldable pub read_loop :
    World → List (ℕ × Result Packet) → FakeTcpConn → Run (Option (Bytes × Addr))
unfolding read_packets read_from
read_loop w packets c = and_then (read_packets w packets c) received
  where
    received : Option PacketIndicator → FakeTcpConn → Run (Option (Bytes × Addr))
    received none d = (ok none, d)
    received (some ind) d = and_then (read_from w ind d) (λ r e. (ok (some r), e))

-- `Write` to the address that was dialed.
unfoldable pub write : World → Bytes → FakeTcpConn → Run ℕ
unfolding write_to
write w b c =
    and_then (reading (deref c.dst_addr) c) (λ (ip, port) d. write_to w b (Addr.tcp_addr ip port) d)
