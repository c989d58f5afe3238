-- ===== src/Icmp4/Sound.antt =====
-- What `ParseICMPv4Layer` promises, and where the accessors of an embedded packet panic.
use ikago.Base.{
  Bool, true, false, List, [], ◌∷◌, Option, none, some, Result, ok, err, panic, ◌>>=◌, ◌≡◌, refl,
  arith,
}
use ikago.Addr.{Addr}
use ikago.Gopacket.{Gopacket, LayerType, Layer, Icmpv4, Icmpv4Type, Ipv4, IpProtocol}
use ikago.Protocol.{parse_ip_protocol}
use ikago.Icmp4.{
  Icmpv4Indicator, with_embedded, query_kind, emb_supported, check_embedded, embedded, parse_kind,
  parse_icmpv4_layer, emb_src, emb_dst,
}

abbrev pub Supported : Layer → Type 0
Supported (Layer.tcp t) = Unit {0}
Supported (Layer.udp u) = Unit {0}
Supported (Layer.icmpv4 i) = Unit {0}
Supported _ = ⊥

-- A parsed ICMPv4 layer: a query that embeds nothing, or an error with the header and the layer that
-- it embeds.
pub data IcmpSound (i : Icmpv4Indicator) : Type 0 where
  query :
      query_kind i.layer.type ≡ some true → i.emb_ipv4 ≡ none → i.emb_transport ≡ none → IcmpSound i
  error :
      (ip : Ipv4) (t : Layer)
      → query_kind i.layer.type ≡ some false
      → i.emb_ipv4 ≡ some ip
      → i.emb_transport ≡ some t
      → Supported t
      → IcmpSound i

emb_supported-eq : (t t' : Layer) → emb_supported t ≡ ok t' → (t ≡ t') × Supported t
unfolding emb_supported
emb_supported-eq (Layer.tcp x) t' e = (cc, tt)
emb_supported-eq (Layer.udp x) t' e = (cc, tt)
emb_supported-eq (Layer.icmpv4 x) t' e = (cc, tt)
emb_supported-eq _ t' e = cc

check_embedded-Supported :
    (n t : Layer) (ip : Ipv4) (t' : Layer)
    → check_embedded n t ≡ ok (ip, t')
    → (t ≡ t') × Supported t
check_embedded-Supported (Layer.ipv4 x) t ip t' e =
    emb_supported-eq t t' (unfold check_embedded in ground arith)
check_embedded-Supported _ t ip t' e = unfold check_embedded in cc

embedded-Supported :
    (ls : List Layer) (ip : Ipv4) (t' : Layer) → embedded ls ≡ ok (ip, t') → Supported t'
unfolding embedded
embedded-Supported [] ip t' e = cc
embedded-Supported (x ∷ []) ip t' e = cc
embedded-Supported (n ∷ t ∷ rest) ip t' e =
    let (p, s) = check_embedded-Supported n t ip t' e in rw (← p) s

error-IcmpSound :
    (l : Icmpv4) (i : Icmpv4Indicator) (r : Result (Ipv4 × Layer))
    → query_kind l.type ≡ some false
    → ((ip : Ipv4) (t : Layer) → r ≡ ok (ip, t) → Supported t)
    → (r >>= λ found. ok (with_embedded l found)) ≡ ok i
    → IcmpSound i
unfolding with_embedded
error-IcmpSound l i (ok (ip, t)) q s e =
    let same : i.layer ≡ l = ground arith in
    IcmpSound.error ip t (rw same q) (ground arith) (ground arith) (s ip t refl)
error-IcmpSound l i (err x) q s e = cc
error-IcmpSound l i panic q s e = cc

parse_kind-IcmpSound :
    (g : Gopacket) (l : Icmpv4) (i : Icmpv4Indicator) (k : Option Bool)
    → query_kind l.type ≡ k
    → parse_kind g l k ≡ ok i
    → IcmpSound i
unfolding parse_kind
parse_kind-IcmpSound g l i none q e = cc
parse_kind-IcmpSound g l i (some true) q e =
    let same : i.layer ≡ l = ground arith in
    IcmpSound.query (rw same q) (ground arith) (ground arith)
parse_kind-IcmpSound g l i (some false) q e =
    error-IcmpSound l i (embedded (g.new_packet l.payload LayerType.ipv4).layers) q
      (λ ip t. embedded-Supported (g.new_packet l.payload LayerType.ipv4).layers ip t) e

-- An indicator that `ParseICMPv4Layer` returns is a query, or an error with its embedded packet.
pub parse_icmpv4_layer-IcmpSound :
    (g : Gopacket) (l : Icmpv4) (i : Icmpv4Indicator) → parse_icmpv4_layer g l ≡ ok i → IcmpSound i
parse_icmpv4_layer-IcmpSound g l i e =
    unfold parse_icmpv4_layer in parse_kind-IcmpSound g l i (query_kind l.type) refl e

-- The embedded ICMPv4 message has a type that is neither a query nor an error.
pub data EmbedsUnknown (i : Icmpv4Indicator) : Type 0 where
  unknown :
      (l : Icmpv4)
      → query_kind i.layer.type ≡ some false
      → i.emb_transport ≡ some (Layer.icmpv4 l)
      → query_kind l.type ≡ none
      → EmbedsUnknown i

-- Both ends of the embedded packet are found unless the embedded message is unknown.
pub emb_ends :
    (i : Icmpv4Indicator) (ip : Ipv4) (t : Layer)
    → query_kind i.layer.type ≡ some false
    → i.emb_ipv4 ≡ some ip
    → i.emb_transport ≡ some t
    → Supported t
    → ¬ EmbedsUnknown i
    → ((a : Addr) × (emb_src i ≡ ok a)) × ((b : Addr) × (emb_dst i ≡ ok b))
unfolding emb_src emb_dst
emb_ends i ip (Layer.tcp x) q hi ht s n = (
  (Addr.tcp_addr ip.dst_ip x.dst_port, ground arith),
  (Addr.tcp_addr ip.src_ip x.src_port, ground arith),
)
emb_ends i ip (Layer.udp x) q hi ht s n = (
  (Addr.udp_addr ip.dst_ip x.dst_port, ground arith),
  (Addr.udp_addr ip.src_ip x.src_port, ground arith),
)
emb_ends i ip (Layer.icmpv4 x) q hi ht s n = by_kind (query_kind x.type) refl
  where
    by_kind :
        (k : Option Bool)
        → query_kind x.type ≡ k
        → ((a : Addr) × (emb_src i ≡ ok a)) × ((b : Addr) × (emb_dst i ≡ ok b))
    by_kind none e = absurd (n (EmbedsUnknown.unknown x q ht e))
    by_kind (some true) e = (
      (Addr.icmp_query_addr ip.dst_ip x.id, ground arith),
      (Addr.icmp_query_addr ip.src_ip x.id, ground arith),
    )
    by_kind (some false) e =
        ((Addr.ip_addr ip.dst_ip, ground arith), (Addr.ip_addr ip.src_ip, ground arith))
emb_ends i ip _ q hi ht s n = elim s [ ]

pub emb_unknown :
    {i : Icmpv4Indicator} → EmbedsUnknown i → (emb_src i ≡ panic) × (emb_dst i ≡ panic)
unfolding emb_src emb_dst
emb_unknown (EmbedsUnknown.unknown l q t n) = (ground arith, ground arith)

-- The five types of ICMPv4 errors.
pub data IsError : Icmpv4Type → Type 0 where
  unreachable : IsError Icmpv4Type.destination_unreachable
  quench : IsError Icmpv4Type.source_quench
  redirected : IsError Icmpv4Type.redirect
  exceeded : IsError Icmpv4Type.time_exceeded
  problem : IsError Icmpv4Type.parameter_problem

pub IsError-query_kind : {t : Icmpv4Type} → IsError t → query_kind t ≡ some false
unfolding query_kind
IsError-query_kind IsError.unreachable = refl
IsError-query_kind IsError.quench = refl
IsError-query_kind IsError.redirected = refl
IsError-query_kind IsError.exceeded = refl
IsError-query_kind IsError.problem = refl

-- An error about an ICMPv4 message is taken, whatever the message's type.
pub parse_icmpv4_layer-error :
    (g : Gopacket) (l : Icmpv4) (ip : Ipv4) (m : Icmpv4) (rest : List Layer)
    → IsError l.type
    → (g.new_packet l.payload LayerType.ipv4).layers ≡ Layer.ipv4 ip ∷ Layer.icmpv4 m ∷ rest
    → ip.version ≡ 4
    → ip.protocol ≡ IpProtocol.icmpv4
    → parse_icmpv4_layer g l
      ≡ ok (record { layer = l; emb_ipv4 = some ip; emb_transport = some (Layer.icmpv4 m) })
unfolding parse_icmpv4_layer parse_kind embedded check_embedded emb_supported with_embedded
    parse_ip_protocol
parse_icmpv4_layer-error g l ip m rest is_error h v p =
    let q = IsError-query_kind is_error in ground arith
