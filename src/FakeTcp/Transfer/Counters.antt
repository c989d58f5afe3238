-- ===== src/FakeTcp/Transfer/Counters.antt =====
-- How the acknowledgement moves with the payloads that are received.
use ikago.Base.{ℕ, ◌+◌, ◌-◌, ◌≤◌, ◌<◌, ◌≡◌, ◌⊎◌, u32_mod, arith}
use ikago.FakeTcp.Transfer.{next_ack}

-- While the payload ends below 2^32 the acknowledgement is the larger of the old one and the
-- payload's end, and so never goes back. When the payload passes 2^32, it is the end behind the
-- wrap.
pub next_ack-max :
    (seq size ack : ℕ)
    → seq < u32_mod
    → size < u32_mod
    → (seq + size < u32_mod
        → (ack ≤ next_ack seq size ack)
          × (seq + size ≤ next_ack seq size ack)
          × ((next_ack seq size ack ≡ ack) ⊎ (next_ack seq size ack ≡ seq + size)))
      × (u32_mod ≤ seq + size → next_ack seq size ack ≡ seq + size - u32_mod)
unfolding next_ack
next_ack-max seq size ack hs hz =
    (λ h. (ground arith, ground arith, ground arith), λ h. ground arith)
