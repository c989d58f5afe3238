-- ===== src/Sticky/Frames/Stream.antt =====
-- A whole stream, in the pieces that the connection reads.
use ikago.Base.{
  ℕ, ◌+◌, ◌-◌, ◌*◌, ◌≤◌, ◌≡◌, refl, sym, ap, ◌∙◌, inl, inr, false, ◌&&◌, Bytes, List, [], ◌∷◌, ◌++◌,
  append_assoc, length, length-append, All, Option, none, some, Bool-cases, Error, Result, ok, err,
  ◌>>=◌, ltb, if◌then◌else◌, arith,
}
use ikago.Gopacket.{Gopacket}
use ikago.Packet.{PacketIndicator}
use ikago.Packet.Parse.{parse_emb_packet}
use ikago.Sticky.{Desticker, new_desticker, rounds, append_sticky, discard, stamp}
use ikago.Sticky.Frames.{IsFrame, flatten, Holds, Short, Cut}
use ikago.Sticky.Frames.Loop.{cost_of, rounds-Cut}

discard-none : (now : ℕ) (d : Desticker) → d.deadline ≡ 0 → discard now d ≡ d
unfolding discard
discard-none now d h =
    let b : (ltb 0 d.deadline && ltb d.deadline (now - d.appear)) ≡ false = ground arith in rw b

with_bytes : Desticker → Bytes → Desticker
with_bytes d b = record d { bytes = b }

with_bytes-eq : (d : Desticker) (b tail : Bytes) → (with_bytes d b).bytes ++ tail ≡ b ++ tail
unfolding with_bytes
with_bytes-eq d b tail = refl

with_bytes-Holds :
    (d : Desticker) (b : Bytes) (ps : List Bytes)
    → Holds d.indicator ps
    → Holds (with_bytes d b).indicator ps
unfolding with_bytes
with_bytes-Holds d b ps h = h

with_bytes-deadline : (d : Desticker) (b : Bytes) → (with_bytes d b).deadline ≡ d.deadline
unfolding with_bytes
with_bytes-deadline d b = refl

-- `Append` on what was kept.
appended : Gopacket → ℕ → Desticker → Result (List Bytes × Desticker)
appended g now all =
    if ltb 0 (length all.bytes)
    then (do cut ← rounds g (2 * length all.bytes + 2) all; ok (stamp now cut))
    else ok ([], all)

append_sticky-kept :
    (g : Gopacket) (now : ℕ) (chunk : Bytes) (d : Desticker)
    → d.deadline ≡ 0
    → append_sticky g now chunk d ≡ appended g now (with_bytes d (d.bytes ++ chunk))
unfolding append_sticky appended with_bytes
append_sticky-kept g now chunk d h =
    ap (λ k. appended g now (with_bytes k (k.bytes ++ chunk))) (discard-none now d h)

stamped :
    (g : Gopacket) (now : ℕ) (future : Bytes) (ps : List Bytes)
    (r : Result (List Bytes × Desticker))
    → Cut g 0 future ps r
    → Cut g 0 future ps (r >>= λ cut. ok (stamp now cut))
unfolding stamp
stamped g now future ps r c = by c.out c.result c.split
  where
    by :
        (o : List Bytes)
        → r ≡ ok (o, c.last)
        → ps ≡ o ++ c.still
        → Cut g 0 future ps (r >>= λ cut. ok (stamp now cut))
    by [] e s = record {
      out = [];
      still = c.still;
      last = c.last;
      result = rw e;
      split = s;
      stream = c.stream;
      holds = c.holds;
      short = c.short;
      kept = c.kept;
    }
    by (q ∷ o) e s = record {
      out = q ∷ o;
      still = c.still;
      last = record c.last { appear = now };
      result = rw e;
      split = s;
      stream = c.stream;
      holds = c.holds;
      short = c.short;
      kept = c.kept;
    }

appended-Cut :
    (g : Gopacket) (now : ℕ) (all : Desticker) (ps : List Bytes) (future : Bytes)
    → (e : Error) × (parse_emb_packet g [] ≡ err e)
    → All (IsFrame g) ps
    → Holds all.indicator ps
    → all.bytes ++ future ≡ flatten ps
    → all.deadline ≡ 0
    → Cut g 0 future ps (appended g now all)
unfolding appended
appended-Cut g now all ps future law fs hh hs hd = elim (Bool-cases (ltb 0 (length all.bytes))) [
  | inl b ↦ rw b (
      stamped g now future ps _ (
        rounds-Cut g 0 (2 * length all.bytes + 2) all all.indicator ps future law fs refl hh hs
          (enough all.indicator) hd))
  | inr b ↦ rw b (record {
    out = [];
    still = ps;
    last = all;
    result = refl;
    split = refl;
    stream = hs;
    holds = hh;
    short = nothing_short all.bytes ps (ground arith) fs;
    kept = hd;
  })
]
  where
    enough :
        (i : Option PacketIndicator) → 2 * length all.bytes + cost_of i ≤ 2 * length all.bytes + 2
    enough none = omega arith
    enough (some i) = omega arith

    nothing_short : (b : Bytes) (qs : List Bytes) → length b ≤ 0 → All (IsFrame g) qs → Short b qs
    nothing_short [] [] h f = refl
    nothing_short (x ∷ b) [] h f = absurd (omega arith)
    nothing_short b (q ∷ qs) h f = omega (arith, f.0.some_bytes)

-- The pieces of a stream, each with the time at which it is read, are appended in turn.
unfoldable pub feed : Gopacket → List (ℕ × Bytes) → Desticker → Result (List Bytes × Desticker)
feed g [] d = ok ([], d)
feed g ((now, chunk) ∷ rest) d = do
  (packets, next) ← append_sticky g now chunk d
  (more, last) ← feed g rest next
  ok (packets ++ more, last)

abbrev pub streamed : List (ℕ × Bytes) → Bytes
streamed [] = []
streamed ((now, chunk) ∷ rest) = chunk ++ streamed rest

abbrev Fed : Gopacket → List Bytes → Result (List Bytes × Desticker) → Type 0
Fed g ps r = (last : Desticker) × (r ≡ ok (ps, last)) × (last.bytes ≡ [])

All-append_right : (P : Bytes → Type 0) (xs ys : List Bytes) → All P (xs ++ ys) → All P ys
All-append_right P [] ys h = h
All-append_right P (x ∷ xs) ys h = All-append_right P xs ys h.1

after :
    (g : Gopacket) (now : ℕ) (chunk : Bytes) (rest : List (ℕ × Bytes)) (d next last : Desticker)
    (packets more : List Bytes)
    → append_sticky g now chunk d ≡ ok (packets, next)
    → feed g rest next ≡ ok (more, last)
    → feed g ((now, chunk) ∷ rest) d ≡ ok (packets ++ more, last)
unfolding feed
after g now chunk rest d next last packets more e f = rw (e, f)

feed-Fed :
    (g : Gopacket) (cs : List (ℕ × Bytes)) (d : Desticker) (ps : List Bytes)
    → (e : Error) × (parse_emb_packet g [] ≡ err e)
    → All (IsFrame g) ps
    → Holds d.indicator ps
    → Short d.bytes ps
    → d.bytes ++ streamed cs ≡ flatten ps
    → d.deadline ≡ 0
    → Fed g ps (feed g cs d)
unfolding feed
feed-Fed g [] d [] law fs hh short hs hd = (d, refl, short)
feed-Fed g [] d (p ∷ ps) law fs hh short hs hd =
    absurd (omega (arith, ap length hs, length-append d.bytes [], length-append p (flatten ps)))
feed-Fed g ((now, chunk) ∷ rest) d ps law fs hh short hs hd =
    let c =
      appended-Cut g now (with_bytes d (d.bytes ++ chunk)) ps (streamed rest) law fs
        (with_bytes-Holds d (d.bytes ++ chunk) ps hh)
        (with_bytes-eq d (d.bytes ++ chunk) (streamed rest)
          ∙ append_assoc d.bytes chunk (streamed rest)
          ∙ hs)
        (with_bytes-deadline d (d.bytes ++ chunk) ∙ hd) in
    let done = append_sticky-kept g now chunk d hd ∙ c.result in
    let (last, e, empty) =
      feed-Fed g rest c.last c.still law
        (All-append_right (IsFrame g) c.out c.still (rw (← c.split) fs)) c.holds c.short c.stream
        c.kept in
    let fed : feed g ((now, chunk) ∷ rest) d ≡ ok (c.out ++ c.still, last) =
      after g now chunk rest d c.last last c.out c.still done e in
    (last, fed ∙ ap (λ q. ok (q, last)) (sym c.split), empty)

-- A stream of packets, in whatever pieces it is read and at whatever times, comes out as the
-- packets in their order, and nothing is left: for a new desticker without a deadline, a parser that
-- refuses an empty packet, and packets with their own lengths in their headers.
pub feed-flatten :
    (g : Gopacket) (start : ℕ) (cs : List (ℕ × Bytes)) (ps : List Bytes)
    → (e : Error) × (parse_emb_packet g [] ≡ err e)
    → All (IsFrame g) ps
    → streamed cs ≡ flatten ps
    → (last : Desticker) × (feed g cs (new_desticker start) ≡ ok (ps, last)) × (last.bytes ≡ [])
unfolding new_desticker
feed-flatten g start cs ps law fs hs =
    feed-Fed g cs (new_desticker start) ps law fs tt (begin ps fs) hs refl
  where
    begin : (qs : List Bytes) → All (IsFrame g) qs → Short [] qs
    begin [] f = refl
    begin (q ∷ qs) f = f.0.some_bytes
