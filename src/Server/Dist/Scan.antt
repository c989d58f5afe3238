-- ===== src/Server/Dist/Scan.antt =====
-- The loops of `dist`, for every pool: what they find, what they have seen when they find nothing,
-- and that they never read out of range.
use ikago.Base.{
  ℕ, zero, suc, false, ◌+◌, ◌-◌, ◌%◌, ◌≤◌, ◌<◌, ◌≡◌, refl, inl, inr, List, get_elem?, length,
  get_elem?-some, Option, none, some, Option-cases, Bool-cases, ok, add16, u16_mod, arith,
}
use native.Mathlib.Nat.{mod-lt}
use ikago.Server.Dist.{keep_alive, is_dead, scan}

-- Slot `s` was last used at `last`, longer than the keep-alive time ago.
pub data DeadAt (now : ℕ) (pool : List ℕ) (s : ℕ) : Type 0 where
  dead : (last : ℕ) → get_elem? pool s ≡ some last → keep_alive < now - last → DeadAt now pool s

module _ (size now : ℕ) (pool : List ℕ) (pos : 0 < size) (whole : length pool ≡ size) where
  -- What the loop returns is a slot of the pool, and dead.
  pub scan-DeadAt :
      (rounds next s next' : ℕ)
      → scan size now rounds pool next ≡ (ok (some s), next')
      → (s < size) × DeadAt now pool s
  scan-DeadAt zero next s next' e = unfold scan in cc
  scan-DeadAt (suc rounds) next s next' e = elim (Option-cases (get_elem? pool (next % size))) [
    | inl h ↦ unfold scan in ground arith
    | inr (last, h) ↦ elim (Bool-cases (is_dead now last)) [
      | inl d ↦
          let same : next % size ≡ s = unfold scan in ground arith in
          (rw (← same) (mod-lt next pos), DeadAt.dead last (rw (← same) h) (ground arith))
      | inr d ↦ scan-DeadAt rounds (add16 next 1) s next' (unfold scan in ground arith)
    ]
  ]

  -- The slot that the round `k` looks at.
  abbrev pub slot : ℕ → ℕ → ℕ
  slot next k = (next + k) % u16_mod % size

  -- A loop that finds nothing has read every slot on its way, each of them alive.
  pub scan-none :
      (rounds next next' k : ℕ)
      → next < u16_mod
      → k < rounds
      → scan size now rounds pool next ≡ (ok none, next')
      → (last : ℕ) × (get_elem? pool (slot next k) ≡ some last) × (now - last ≤ keep_alive)
  scan-none zero next next' k hn hk e = elim hk [ ]
  scan-none (suc rounds) next next' k hn hk e = elim (Option-cases (get_elem? pool (next % size))) [
    | inl h ↦ unfold scan in ground arith
    | inr (last, h) ↦ elim (Bool-cases (is_dead now last)) [
      | inl d ↦ unfold scan in ground arith
      | inr d ↦ by_round (λ j. scan-none rounds (add16 next 1) next' j) last h d k hk
    ]
  ]
    where
      again :
          (last : ℕ)
          → get_elem? pool (next % size) ≡ some last
          → is_dead now last ≡ false
          → scan size now rounds pool (add16 next 1) ≡ (ok none, next')
      again last h d = unfold scan in ground arith

      by_round :
          ((j : ℕ)
            → add16 next 1 < u16_mod
            → j < rounds
            → scan size now rounds pool (add16 next 1) ≡ (ok none, next')
            → (l : ℕ) × (get_elem? pool (slot (add16 next 1) j) ≡ some l) × (now - l ≤ keep_alive))
          → (last : ℕ) → get_elem? pool (next % size) ≡ some last
          → is_dead now last ≡ false
          → (j : ℕ) → j < suc rounds
          → (l : ℕ) × (get_elem? pool (slot next j) ≡ some l) × (now - l ≤ keep_alive)
      by_round rec last h d zero hj =
          let here : (next + 0) % u16_mod ≡ next = omega arith in (last, rw here h, ground arith)
      by_round rec last h d (suc j) hj =
          let there : (add16 next 1 + j) % u16_mod ≡ (next + suc j) % u16_mod = omega arith in
          rw (← there) (rec j (omega arith) (omega arith) (again last h d))

  -- The loop reads no slot out of range.
  pub scan-total :
      (rounds next : ℕ)
      → (r : Option ℕ) × (next' : ℕ) × (scan size now rounds pool next ≡ (ok r, next'))
  unfolding scan
  scan-total zero next = (none, next, refl)
  scan-total (suc rounds) next =
      let (last, h) = get_elem?-some pool (next % size) (rw whole (mod-lt next pos)) in
      elim (Bool-cases (is_dead now last)) [
        | inl d ↦ (some (next % size), add16 next 1, ground arith)
        | inr d ↦ let (r, next', e) = scan-total rounds (add16 next 1) in (r, next', ground arith)
      ]

  pub scan-next : (rounds next : ℕ) → next < u16_mod → (scan size now rounds pool next).1 < u16_mod
  unfolding scan
  scan-next zero next h = h
  scan-next (suc rounds) next h = ground (arith, scan-next rounds (add16 next 1) (omega arith))
