-- ===== src/Sticky/Frames/Loop.antt =====
-- The loop of `Append`, and a whole stream in pieces.
use ikago.Base.{
  ℕ, zero, suc, ◌+◌, ◌*◌, ◌≤◌, ◌<◌, ◌≡◌, refl, sym, ap, ◌∙◌, inl, inr, true, false, Bytes, List, [],
  ◌∷◌, ◌++◌, length, take, drop, drop-all, length-drop, take-append, take-all, All, Option, none,
  some, Bool-cases, Error, Result, ok, err, ◌>>=◌, ltb, leb, arith,
}
use ikago.Gopacket.{Gopacket, Ipv4}
use ikago.Packet.{PacketIndicator, need_ipv4}
use ikago.Packet.Parse.{parse_emb_packet}
use ikago.Sticky.{Desticker, behind, cut_packet, rounds}
use ikago.Sticky.Frames.{Reads, IsFrame, flatten, begin-part, begin-whole, Holds, Short, Cut}

rounds-wait :
    (g : Gopacket) (fuel : ℕ) (d : Desticker) {ind : PacketIndicator} {ip : Ipv4}
    → d.indicator ≡ some ind
    → need_ipv4 ind ≡ ok ip
    → length d.bytes < ip.len
    → rounds g (suc fuel) d ≡ ok ([], d)
unfolding rounds cut_packet
rounds-wait g fuel d {ip} hi hn h =
    let b : leb ip.len (length d.bytes) ≡ false = ground arith in rw (hi, hn, b)

rounds-cut :
    (g : Gopacket) (fuel : ℕ) (d : Desticker) {ind : PacketIndicator} {ip : Ipv4}
    → d.indicator ≡ some ind
    → need_ipv4 ind ≡ ok ip
    → ip.len ≤ length d.bytes
    → rounds g (suc fuel) d
      ≡ (rounds g fuel (behind ip.len d) >>= λ r. ok (take ip.len d.bytes ∷ r.0, r.1))
unfolding rounds cut_packet
rounds-cut g fuel d {ip} hi hn h =
    let b : leb ip.len (length d.bytes) ≡ true = ground arith in rw (hi, hn, b)

rounds-found :
    (g : Gopacket) (fuel : ℕ) (d : Desticker) {ind : PacketIndicator}
    → d.indicator ≡ none
    → parse_emb_packet g d.bytes ≡ ok ind
    → rounds g (suc fuel) d ≡ rounds g fuel (record d { indicator = some ind })
unfolding rounds
rounds-found g fuel d {ind} hi hp =
    let step : rounds g (suc fuel) (record d { indicator = none })
        ≡ rounds g fuel (record d { indicator = some ind }) =
      rw (hp, rounds) in
    ap (λ i. rounds g (suc fuel) (record d { indicator = i })) hi ∙ step

rounds-stop :
    (g : Gopacket) (fuel : ℕ) (d : Desticker) {e : Error}
    → d.indicator ≡ none
    → parse_emb_packet g d.bytes ≡ err e
    → rounds g (suc fuel) d ≡ ok ([], d)
unfolding rounds
rounds-stop g fuel d hi hp =
    let step : rounds g (suc fuel) (record d { indicator = none })
        ≡ ok ([], record d { indicator = none }) =
      rw (hp, rounds) in
    ap (λ i. rounds g (suc fuel) (record d { indicator = i })) hi
    ∙ step
    ∙ ap (λ i. ok ([], record d { indicator = i })) (sym hi)

behind-drop : (n : ℕ) (d : Desticker) → n ≤ length d.bytes → (behind n d).bytes ≡ drop n d.bytes
unfolding behind
behind-drop n d h = elim (Bool-cases (ltb n (length d.bytes))) [
  | inl b ↦ rw b
  | inr b ↦ rw b (sym (drop-all n d.bytes (ground arith)))
]

behind-none : (n : ℕ) (d : Desticker) → (behind n d).indicator ≡ none
unfolding behind
behind-none n d = refl

behind-deadline : (n : ℕ) (d : Desticker) → (behind n d).deadline ≡ d.deadline
unfolding behind
behind-deadline n d = refl

-- What the next round takes of the fuel.
abbrev pub cost_of : Option PacketIndicator → ℕ
cost_of none = 2
cost_of (some ind) = 1

stopped :
    (g : Gopacket) (dl fuel : ℕ) (d : Desticker) (ps : List Bytes) (future : Bytes)
    → rounds g fuel d ≡ ok ([], d)
    → d.bytes ++ future ≡ flatten ps
    → Holds d.indicator ps
    → Short d.bytes ps
    → d.deadline ≡ dl
    → Cut g dl future ps (rounds g fuel d)
stopped g dl fuel d ps future e hs hh short hd = record {
  kept = hd;
  out = [];
  still = ps;
  last = d;
  result = e;
  split = refl;
  stream = hs;
  holds = hh;
  short = short;
}

moved :
    (g : Gopacket) (dl : ℕ) (future : Bytes) (ps : List Bytes)
    {r r' : Result (List Bytes × Desticker)}
    → r ≡ r'
    → Cut g dl future ps r'
    → Cut g dl future ps r
moved g dl future ps e c = record {
  kept = c.kept;
  out = c.out;
  still = c.still;
  last = c.last;
  result = e ∙ c.result;
  split = c.split;
  stream = c.stream;
  holds = c.holds;
  short = c.short;
}

one_more :
    (g : Gopacket) (dl : ℕ) (future p : Bytes) (ps : List Bytes)
    (r : Result (List Bytes × Desticker))
    → Cut g dl future ps r
    → Cut g dl future (p ∷ ps) (r >>= λ x. ok (p ∷ x.0, x.1))
one_more g dl future p ps r c = record {
  kept = c.kept;
  out = p ∷ c.out;
  still = c.still;
  last = c.last;
  result = rw c.result;
  split = ap (λ x. p ∷ x) c.split;
  stream = c.stream;
  holds = c.holds;
  short = c.short;
}

Reads-at : (g : Gopacket) (a b : Bytes) (n : ℕ) → a ≡ b → Reads g b n → Reads g a n
Reads-at g a b n e r = record {
  ind = r.ind;
  ip = r.ip;
  parsed = ap (parse_emb_packet g) e ∙ r.parsed;
  layer = r.layer;
  len = r.len;
}

nil-left : (xs ys : Bytes) → xs ++ ys ≡ [] → xs ≡ []
nil-left [] ys h = refl
nil-left (x ∷ xs) ys h = cc

-- The loop takes from the data the packets that are there.
pub rounds-Cut :
    (g : Gopacket) (dl fuel : ℕ) (d : Desticker) (i : Option PacketIndicator) (ps : List Bytes)
    (future : Bytes)
    → (e : Error) × (parse_emb_packet g [] ≡ err e)
    → All (IsFrame g) ps
    → d.indicator ≡ i
    → Holds i ps
    → d.bytes ++ future ≡ flatten ps
    → 2 * length d.bytes + cost_of i ≤ fuel
    → d.deadline ≡ dl
    → Cut g dl future ps (rounds g fuel d)
rounds-Cut g dl zero d none ps future law fs hi hh hs hf hd = absurd (omega arith)
rounds-Cut g dl zero d (some ind) ps future law fs hi hh hs hf hd = absurd (omega arith)
rounds-Cut g dl (suc fuel) d (some ind) [] future law fs hi hh hs hf hd = absurd hh
rounds-Cut g dl (suc fuel) d (some ind) (p ∷ rest) future law fs hi (ip, hn, hl) hs hf hd =
    elim (Bool-cases (leb (length p) (length d.bytes))) [
      | inl b ↦
          let le : length p ≤ length d.bytes = ground arith in
          let le' : ip.len ≤ length d.bytes = omega (arith, hl) in
          let (e1, e2) = begin-whole d.bytes future p (flatten rest) hs le in
          let left : (behind ip.len d).bytes ≡ drop (length p) d.bytes =
            behind-drop ip.len d le' ∙ ap (λ n. drop n d.bytes) hl in
          let first : take ip.len d.bytes ≡ p =
            ap (λ n. take n d.bytes) hl
            ∙ ap (take (length p)) e1
            ∙ take-append (length p) p (drop (length p) d.bytes) (omega arith)
            ∙ take-all (length p) p (omega arith) in
          let more =
            rounds-Cut g dl fuel (behind ip.len d) none rest future law fs.1 (behind-none ip.len d)
              tt (ap (λ x. x ++ future) left ∙ e2)
              (omega (arith, ap length left, length-drop (length p) d.bytes, fs.0.some_bytes))
              (behind-deadline ip.len d ∙ hd) in
          moved g dl future (p ∷ rest)
            (rounds-cut g fuel d hi hn le'
              ∙ ap (λ f. rounds g fuel (behind ip.len d) >>= λ r. ok (f ∷ r.0, r.1)) first)
            (one_more g dl future p rest (rounds g fuel (behind ip.len d)) more)
      | inr b ↦
          stopped g dl (suc fuel) d (p ∷ rest) future (rounds-wait g fuel d hi hn (ground arith)) hs
            (rw hi (ip, hn, hl)) (ground arith) hd
    ]
rounds-Cut g dl (suc fuel) d none [] future (e, law) fs hi hh hs hf hd =
    let nothing = nil-left d.bytes future hs in
    stopped g dl (suc fuel) d [] future
      (rounds-stop g fuel d hi (ap (parse_emb_packet g) nothing ∙ law)) hs (rw hi tt) nothing hd
rounds-Cut g dl (suc fuel) d none (p ∷ rest) future law fs hi hh hs hf hd =
    let found : Reads g d.bytes (length p) → Cut g dl future (p ∷ rest) (rounds g (suc fuel) d) =
      λ r. moved g dl future (p ∷ rest) (rounds-found g fuel d hi r.parsed) (
        rounds-Cut g dl fuel (record d { indicator = some r.ind }) (some r.ind) (p ∷ rest) future
          law fs refl (r.ip, r.layer, r.len) hs (omega arith) hd) in
    elim (Bool-cases (leb (length p) (length d.bytes))) [
      | inl b ↦
          let (e1, e2) = begin-whole d.bytes future p (flatten rest) hs (ground arith) in
          found (Reads-at g d.bytes _ (length p) e1 (fs.0.whole (drop (length p) d.bytes)))
      | inr b ↦
          let lt : length d.bytes < length p = ground arith in
          let e1 = begin-part d.bytes future p (flatten rest) hs lt in
          elim (fs.0.part (length d.bytes) lt) [
            | inl (e, q) ↦
                stopped g dl (suc fuel) d (p ∷ rest) future
                  (rounds-stop g fuel d hi (ap (parse_emb_packet g) e1 ∙ q)) hs (rw hi tt) lt hd
            | inr reads ↦ found (Reads-at g d.bytes _ (length p) e1 reads)
          ]
    ]
