-- ===== src/Sticky/Frames.antt =====
-- However a stream of packets is cut, the packets come out of it.
pub mod Loop
pub mod Stream
use ikago.Base.{
  ℕ, zero, suc, ◌+◌, ◌-◌, ◌*◌, ◌≤◌, ◌<◌, ◌≡◌, refl, sym, ap, ◌∙◌, inl, inr, ◌⊎◌, Bool, true, false,
  Bytes, List, [], ◌∷◌, ◌++◌, append-nil, append_assoc, length, take, drop, length-append,
  length-drop, take-append, take-all, take-append-drop, drop-append, All, Option, none, some,
  Option-cases, Bool-cases, Error, Result, ok, err, panic, ◌>>=◌, bind-ok, ltb, leb, if◌then◌else◌,
  arith,
}
use ikago.Gopacket.{Gopacket, Ipv4}
use ikago.Packet.{PacketIndicator, need_ipv4}
use ikago.Packet.Parse.{parse_emb_packet}
use ikago.Sticky.{
  Desticker, new_desticker, behind, cut_packet, rounds, append_sticky, discard, stamp,
}

-- The data is read as a packet of `n` bytes.
pub record Reads (g : Gopacket) (body : Bytes) (n : ℕ) : Type 0 where
  pub ind : PacketIndicator
  pub ip : Ipv4
  pub parsed : parse_emb_packet g body ≡ ok ind
  pub layer : need_ipv4 ind ≡ ok ip
  pub len : ip.len ≡ n

-- A packet with its own length in its header, whatever follows; where a part of it is read at all,
-- the length is the same.
pub record IsFrame (g : Gopacket) (p : Bytes) : Type 0 where
  pub some_bytes : 0 < length p
  pub whole : (rest : Bytes) → Reads g (p ++ rest) (length p)
  pub part :
      (k : ℕ)
      → k < length p
      → ((e : Error) × (parse_emb_packet g (take k p) ≡ err e)) ⊎ Reads g (take k p) (length p)

abbrev pub flatten : List Bytes → Bytes
flatten [] = []
flatten (p ∷ ps) = p ++ flatten ps

drop-append_le : (n : ℕ) (xs ys : Bytes) → n ≤ length xs → drop n (xs ++ ys) ≡ drop n xs ++ ys
drop-append_le zero xs ys h = refl
drop-append_le (suc n) [] ys h = absurd (omega arith)
drop-append_le (suc n) (x ∷ xs) ys h = drop-append_le n xs ys (omega arith)

-- Data that begins a stream is a part of its first packet, or has all of it.
pub begin-part :
    (body future p tail : Bytes)
    → body ++ future ≡ p ++ tail
    → length body < length p
    → body ≡ take (length body) p
begin-part body future p tail h lt =
    sym (take-all (length body) body (omega arith))
    ∙ sym (take-append (length body) body future (omega arith))
    ∙ ap (take (length body)) h
    ∙ take-append (length body) p tail (omega arith)

pub begin-whole :
    (body future p tail : Bytes)
    → body ++ future ≡ p ++ tail
    → length p ≤ length body
    → (body ≡ p ++ drop (length p) body) × (drop (length p) body ++ future ≡ tail)
begin-whole body future p tail h le =
    let front : take (length p) body ≡ p =
      sym (take-append (length p) body future le)
      ∙ ap (take (length p)) h
      ∙ take-append (length p) p tail (omega arith)
      ∙ take-all (length p) p (omega arith) in
    (
      sym (take-append-drop (length p) body) ∙ ap (λ f. f ++ drop (length p) body) front,
      sym (drop-append_le (length p) body future le) ∙ ap (drop (length p)) h ∙ drop-append p tail,
    )

-- The header that was found belongs to the first packet.
abbrev pub Holds : Option PacketIndicator → List Bytes → Type 0
Holds none ps = Unit
Holds (some ind) [] = ⊥
Holds (some ind) (p ∷ ps) = (ip : Ipv4) × (need_ipv4 ind ≡ ok ip) × (ip.len ≡ length p)

-- What is left does not have the first packet.
abbrev pub Short : Bytes → List Bytes → Type 0
Short body [] = body ≡ []
Short body (p ∷ ps) = length body < length p

-- What the loop has to leave, when the packets `ps` are still to come out.
pub record Cut (g : Gopacket) (deadline : ℕ) (future : Bytes) (ps : List Bytes)
    (r : Result (List Bytes × Desticker)) : Type 0 where
  pub out : List Bytes
  pub still : List Bytes
  pub last : Desticker
  pub result : r ≡ ok (out, last)
  pub split : ps ≡ out ++ still
  pub stream : last.bytes ++ future ≡ flatten still
  pub holds : Holds last.indicator still
  pub short : Short last.bytes still
  pub kept : last.deadline ≡ deadline
