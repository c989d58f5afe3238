-- ===== src/Server/Refinement/Refining.antt =====
-- The server of cmd/ikago-server/main.go refines the contract of its NAT, whatever each call returns.
use ikago.Base.{
  ℕ, ◌≡◌, inl, inr, refl, ap, ◌∙◌, Bool-cases, Bytes, List, [], ◌∷◌, Option, none, some, ok,
  if◌then◌else◌,
}
use ikago.Addr.{Ip}
use ikago.Gopacket.{Layer}
use ikago.Device.{need_ip}
use ikago.Packet.{PacketIndicator}
use ikago.Packet.Nat.{nat_protocol}
use ikago.Packet.Parse.{parse_emb_packet}
use ikago.Server.Keys.{find, put, find-put_self, find-put_ne}
use ikago.Server.State.{
  NatGuide, NatIndicator, Conn, World, Server, Act, lift, modify, pure, ◌>>=◌, ◌>>◌, quintuple_key,
  guide_key, guide_eq, guide_eq_sound,
}
use ikago.Calls.Keeping.{Keeps-to, lift_holds, then_holds}
use ikago.Server.Identity.{guide_of, nat_entry}
use ikago.Server.Outbound.{outbound}
use ikago.Server.Listen.{
  up_value, write_outbound, record_nat, keep_alive, remember, redirect, handle_listen,
}
use ikago.Server.Quiet.{write_outbound-quiet, count_outbound-quiet}
use ikago.Server.Invariant.{Inv, FragsBare}
use ikago.Server.Invariant.Mapping.{up_value-Inv}
use ikago.Server.Invariant.Guides.{Valued, guide_of-Leads}
use ikago.Server.Invariant.Listening.{up_value-Valued}
use ikago.Server.Invariant.Reaching.{Step, Step-Inv}
use ikago.Server.Refinement.Binding.{
  NatOnly, quiet, up_value-only, keep_alive-only, handle_upstream-only,
}
use ikago.Server.Refinement.{Event, step, run, view, Entry, Moves, Runs}

-- `nat` is as it was, or has the entry of the packet.
pub data Became (w : World) (contents : Bytes) (conn : Conn) (n : List (NatGuide × NatIndicator))
    (t : Server) : Type 0 where
  same : t.nat ≡ n → Became w contents conn n t
  bound :
      (g : NatGuide) (ni : NatIndicator)
      → Entry w contents conn g ni
      → t.nat ≡ put g ni n
      → Became w contents conn n t

module _ (w : World) (now : ℕ) (contents : Bytes) (conn : Conn)
    (n : List (NatGuide × NatIndicator)) where
  abbrev P : Server → Type 0
  P = Became w contents conn n

  only : NatOnly P
  only s t e (Became.same f) = Became.same (e ∙ f)
  only s t e (Became.bound g ni entry f) = Became.bound g ni entry (e ∙ f)

  record_nat-Became :
      (v : ℕ) (ind : PacketIndicator) (l : Layer) (s : Server)
      → parse_emb_packet w.gopacket contents ≡ ok ind
      → ind.transport_layer ≡ some l
      → Valued ind v
      → s.nat ≡ n
      → Became w contents conn n (record_nat w v ind conn l s).1
  unfolding record_nat
  record_nat-Became v ind l s parsed hl hv e =
      lift_holds P (need_ip w.up_conn.src_dev) _ s (Became.same e)
        (λ up hu. lift_holds P (guide_of up v ind l) _ s (Became.same e) (by_guide up hu))
    where
      by_guide :
          (up : Ip)
          → need_ip w.up_conn.src_dev ≡ ok up
          → (guide : Option NatGuide) → guide_of up v ind l ≡ ok guide
          → P
              ((elim guide as (λ _. Act (Unit {0})) [
                | none ↦ pure tt
                | some g ↦ do
                  ni ← lift (nat_entry ind conn)
                  modify (λ s. record s { nat = put g ni s.nat })
              ])
                s).1
      by_guide up hu none hg = Became.same e
      by_guide up hu (some g) hg = lift_holds P (nat_entry ind conn) _ s (Became.same e) (λ ni hn.
          Became.bound g ni
            (record {
              ind = ind;
              parsed = parsed;
              layer = l;
              transport = hl;
              value = v;
              up_ip = up;
              up = hu;
              guided = hg;
              source = hn;
              leads = guide_of-Leads ind up v w conn l g ni hu hl hv hg hn;
            })
            (ap (put g ni) e))

  remember-Became :
      (v : ℕ) (ind : PacketIndicator) (s : Server)
      → parse_emb_packet w.gopacket contents ≡ ok ind
      → Valued ind v
      → s.nat ≡ n
      → P (remember w now v ind conn s).1
  unfolding remember
  remember-Became v ind s parsed hv e = by_layer ind.transport_layer refl
    where
      by_layer :
          (o : Option Layer)
          → ind.transport_layer ≡ o
          → P
              ((elim o as (λ _. Act (Unit {0})) [
                | none ↦ pure tt
                | some l ↦ do
                  record_nat w v ind conn l
                  protocol ← lift (nat_protocol ind)
                  keep_alive now protocol v
              ])
                s).1
      by_layer none h = Became.same e
      by_layer (some l) h =
          then_holds P (record_nat w v ind conn l) _ s (record_nat-Became v ind l s parsed h hv e)
            (λ _ mid _ m.
              lift_holds P (nat_protocol ind) _ mid m (λ p _. keep_alive-only P only now p v mid m))

  -- The state of `nat` before the packet is recorded.
  At : Server → Type 0
  At t = t.nat ≡ n

  At-only : NatOnly At
  unfolding At
  At-only s t e f = e ∙ f

  redirect-Became :
      (ind : PacketIndicator) (s : Server)
      → parse_emb_packet w.gopacket contents ≡ ok ind
      → FragsBare w.gopacket
      → Inv w s
      → s.nat ≡ n
      → P (redirect w now ind conn s).1
  unfolding redirect At
  redirect-Became ind s parsed bare inv e =
      then_holds P (up_value now ind conn) _ s
        (Became.same (up_value-only At At-only now ind conn s e))
        (λ v mid u _.
          let hv =
            up_value-Valued w now ind conn s v mid (bare contents ind parsed) u
              (Keeps-to (up_value now ind conn) (up_value-Inv w now ind conn) u inv) in
          let m =
            Keeps-to {P = At} (up_value now ind conn) (up_value-only At At-only now ind conn) u e in
          lift_holds P (outbound w v ind) _ mid (Became.same m) (λ packets _.
            then_holds P (write_outbound w ind 0 packets) _ mid
              (Became.same (write_outbound-quiet At (quiet At At-only) w now ind 0 packets mid m))
              (λ _ sent x _.
                let f =
                  Keeps-to {P = At} (write_outbound w ind 0 packets)
                    (write_outbound-quiet At (quiet At At-only) w now ind 0 packets) x m in
                then_holds P (remember w now v ind conn) _ sent
                  (remember-Became v ind sent parsed hv f)
                  (λ _ kept _ k. count_outbound-quiet P (quiet P only) w now ind conn kept k))))

put-view :
    (n : List (NatGuide × NatIndicator)) (g h : NatGuide) (ni : NatIndicator)
    → find h (put g ni n) ≡ (if guide_eq h g then some ni else find h n)
put-view n g h ni = elim (Bool-cases (guide_eq h g)) [
  | inl e ↦
      let same : h ≡ g = guide_eq_sound h g e in
      rw e (ap (λ x. find x (put g ni n)) same ∙ find-put_self g ni n)
  | inr e ↦ rw e (find-put_ne g h ni n e)
]

Became-Moves :
    (w : World) (now : ℕ) (contents : Bytes) (conn : Conn) (s t : Server)
    → Became w contents conn s.nat t
    → Moves w (Event.listens now contents conn) (view s) (view t)
Became-Moves w now contents conn s t (Became.same e) = Moves.stays (λ h. ap (find h) e)
Became-Moves w now contents conn s t (Became.bound g ni entry e) =
    Moves.binds g ni entry (λ h. ap (find h) e ∙ put-view s.nat g h ni)

handle_listen-Became :
    (w : World) (now : ℕ) (contents : Bytes) (conn : Conn) (s : Server)
    → FragsBare w.gopacket
    → Inv w s
    → Became w contents conn s.nat (handle_listen w now contents conn s).1
unfolding handle_listen
handle_listen-Became w now [] conn s bare inv = Became.same refl
handle_listen-Became w now (b ∷ rest) conn s bare inv =
    lift_holds (Became w (b ∷ rest) conn s.nat) (parse_emb_packet w.gopacket (b ∷ rest)) _ s
      (Became.same refl)
      (λ ind h. redirect-Became w now (b ∷ rest) conn s.nat ind s h bare inv refl)

pub step-Moves :
    (w : World) (e : Event) (s : Server)
    → FragsBare w.gopacket
    → Inv w s
    → Moves w e (view s) (view (step w e s))
unfolding step
step-Moves w (Event.listens now contents conn) s bare inv =
    Became-Moves w now contents conn s _ (handle_listen-Became w now contents conn s bare inv)
step-Moves w (Event.answers now packet) s bare inv = Moves.stays (λ h.
    ap (find h) (handle_upstream-only (λ t. t.nat ≡ s.nat) (λ x y f g. f ∙ g) w now packet s refl))

step-Inv :
    (w : World) (e : Event) (s : Server) → FragsBare w.gopacket → Inv w s → Inv w (step w e s)
unfolding step
step-Inv w (Event.listens now contents conn) s bare inv =
    Step-Inv bare (Step.listens now contents conn) inv
step-Inv w (Event.answers now packet) s bare inv = Step-Inv bare (Step.answers now packet) inv

-- Any sequence of calls of the two handlers, whatever each of them returns, is a sequence of steps of
-- the contract: a packet from the upstream changes no entry of `nat`, and a client's packet changes
-- none but that of the guide of a number of the server's pool, which becomes the packet's source, its
-- client and its connection. (The first state satisfies the invariant, and gopacket gives a fragment
-- no transport layer.)
pub run-Runs :
    (w : World) (es : List Event) (s : Server)
    → FragsBare w.gopacket
    → Inv w s
    → Runs w es (view s) (view (run w es s))
unfolding run
run-Runs w [] s bare inv = Runs.ends
run-Runs w (e ∷ es) s bare inv =
    Runs.goes (step-Moves w e s bare inv)
      (run-Runs w es (step w e s) bare (step-Inv w e s bare inv))
