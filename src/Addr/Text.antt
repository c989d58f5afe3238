-- ===== src/Addr/Text.antt =====
-- The texts of two addresses agree exactly when they name one endpoint: a map keyed by `String()`
-- confuses a TCP and a UDP endpoint of one address and port, and nothing else.
use ikago.Base.{
  ℕ, ◌≡◌, ◌↔◌, refl, sym, ap, ◌∙◌, [], ◌∷◌, ◌++◌, append_assoc, Bytes, All, append-nil, arith,
}
use ikago.Addr.Decimal.{IsDigit, decimal-All, decimal-injective}
use ikago.Addr.{Ip, Addr, decimal, ip_string, format_ip, string}

-- What an address names, the protocol aside.
pub data Endpoint : Type 0 where
  host : Ip → Endpoint
  host_port : Ip → ℕ → Endpoint
  query : Ip → ℕ → Endpoint

unfoldable pub endpoint : Addr → Endpoint
endpoint (Addr.ip_addr ip) = Endpoint.host ip
endpoint (Addr.tcp_addr ip port) = Endpoint.host_port ip port
endpoint (Addr.udp_addr ip port) = Endpoint.host_port ip port
endpoint (Addr.icmp_query_addr ip id) = Endpoint.query ip id

abbrev Stops : Bytes → Type 0
Stops [] = Unit
Stops (c ∷ _) = ¬ IsDigit c

-- Digits that are followed by no digit are determined by the text.
split_digits :
    (xs ys r s : Bytes)
    → All IsDigit xs
    → All IsDigit ys
    → Stops r
    → Stops s
    → xs ++ r ≡ ys ++ s
    → (xs ≡ ys) × (r ≡ s)
split_digits [] [] r s hx hy n m e = (refl, e)
split_digits [] (y ∷ ys) [] s hx hy n m e = cc
split_digits [] (y ∷ ys) (c ∷ r) s hx hy n m e = absurd (n (let f : c ≡ y = cc in rw f hy.0))
split_digits (x ∷ xs) [] r [] hx hy n m e = cc
split_digits (x ∷ xs) [] r (c ∷ s) hx hy n m e = absurd (m (let f : c ≡ x = cc in rw f hx.0))
split_digits (x ∷ xs) (y ∷ ys) r s hx hy n m e =
    let head : x ≡ y = cc in let (p, q) = split_digits xs ys r s hx.1 hy.1 n m (cc) in (cc, q)

split_decimal :
    (m n : ℕ) (r s : Bytes)
    → Stops r
    → Stops s
    → decimal m ++ r ≡ decimal n ++ s
    → (m ≡ n) × (r ≡ s)
split_decimal m n r s hr hs e =
    let (p, q) = split_digits (decimal m) (decimal n) r s (decimal-All m) (decimal-All n) hr hs e in
    (decimal-injective m n p, q)

dot-Stops : ¬ IsDigit b'.'
dot-Stops h = omega arith

after_dot : {r s : Bytes} → b'.' ∷ r ≡ b'.' ∷ s → r ≡ s
after_dot e = cc

ip_string-append :
    (ip : Ip) (t : Bytes)
    → ip_string ip ++ t
      ≡ decimal ip.a ++ b'.' ∷ (decimal ip.b ++ b'.' ∷ (decimal ip.c ++ b'.' ∷ (decimal ip.d ++ t)))
unfolding ip_string
ip_string-append ip t = simp append_assoc

split_ip :
    (x y : Ip) (r s : Bytes)
    → Stops r
    → Stops s
    → ip_string x ++ r ≡ ip_string y ++ s
    → (x ≡ y) × (r ≡ s)
split_ip x y r s hr hs e =
    let e' = sym (ip_string-append x r) ∙ e ∙ ip_string-append y s in
    let (ha, ea) = split_decimal x.a y.a _ _ dot-Stops dot-Stops e' in
    let (hb, eb) = split_decimal x.b y.b _ _ dot-Stops dot-Stops (after_dot ea) in
    let (hc, ec) = split_decimal x.c y.c _ _ dot-Stops dot-Stops (after_dot eb) in
    let (hd, ed) = split_decimal x.d y.d r s hr hs (after_dot ec) in (ground arith, ed)

-- What follows the address in the text.
tail : Endpoint → Bytes
tail (Endpoint.host ip) = []
tail (Endpoint.host_port ip port) = b':' ∷ decimal port
tail (Endpoint.query ip id) = b'@' ∷ decimal id

ip_of : Endpoint → Ip
ip_of (Endpoint.host ip) = ip
ip_of (Endpoint.host_port ip port) = ip
ip_of (Endpoint.query ip id) = ip

string-eq : (a : Addr) → string a ≡ ip_string (ip_of (endpoint a)) ++ tail (endpoint a)
unfolding string endpoint tail ip_of format_ip
string-eq (Addr.ip_addr ip) = sym (append-nil (ip_string ip))
string-eq (Addr.tcp_addr ip port) = refl
string-eq (Addr.udp_addr ip port) = refl
string-eq (Addr.icmp_query_addr ip id) = refl

tail-Stops : (e : Endpoint) → Stops (tail e)
unfolding tail
tail-Stops (Endpoint.host ip) = tt
tail-Stops (Endpoint.host_port ip port) = λ h. omega arith
tail-Stops (Endpoint.query ip id) = λ h. omega arith

tail-injective : (e f : Endpoint) → ip_of e ≡ ip_of f → tail e ≡ tail f → e ≡ f
unfolding tail ip_of
tail-injective (Endpoint.host ip) (Endpoint.host jp) p q = cc
tail-injective (Endpoint.host_port ip m) (Endpoint.host_port jp n) p q =
    let same : m ≡ n = decimal-injective m n (cc) in cc
tail-injective (Endpoint.query ip m) (Endpoint.query jp n) p q =
    let same : m ≡ n = decimal-injective m n (cc) in cc
tail-injective (Endpoint.host_port ip m) (Endpoint.query jp n) p q =
    let h : ◌≡◌ {A = ℕ} b':' b'@' = cc in absurd (omega arith)
tail-injective (Endpoint.query ip m) (Endpoint.host_port jp n) p q =
    let h : ◌≡◌ {A = ℕ} b'@' b':' = cc in absurd (omega arith)
tail-injective (Endpoint.host ip) (Endpoint.host_port jp n) p q = cc
tail-injective (Endpoint.host ip) (Endpoint.query jp n) p q = cc
tail-injective (Endpoint.host_port jp n) (Endpoint.host ip) p q = cc
tail-injective (Endpoint.query jp n) (Endpoint.host ip) p q = cc

-- Two addresses have one text exactly when they name one endpoint, the protocol aside.
pub string-injective : (a b : Addr) → (string a ≡ string b) ↔ (endpoint a ≡ endpoint b)
string-injective a b = (there, back)
  where
    there : string a ≡ string b → endpoint a ≡ endpoint b
    there e =
        let (p, q) =
          split_ip (ip_of (endpoint a)) (ip_of (endpoint b)) (tail (endpoint a)) (tail (endpoint b))
            (tail-Stops (endpoint a)) (tail-Stops (endpoint b))
            (sym (string-eq a) ∙ e ∙ string-eq b) in
        tail-injective (endpoint a) (endpoint b) p q

    back : endpoint a ≡ endpoint b → string a ≡ string b
    back e = string-eq a ∙ ap (λ p. ip_string (ip_of p) ++ tail p) e ∙ sym (string-eq b)
