-- ===== src/Fragment/Defrag/Order.antt =====
-- The order in which fragments arrive does not show in the sorted list.
use ikago.Base.{
  ◌≤◌, ◌<◌, ◌≡◌, ◌≢◌, refl, sym, ap, ◌∙◌, true, false, inl, inr, List, [], ◌∷◌, ◌++◌, leb,
  Bool-cases, All, arith,
}
use ikago.Packet.{PacketIndicator}
use ikago.Fragment.Defrag.{sort_key, insert}

insert-front :
    (a x : PacketIndicator) (xs : List PacketIndicator)
    → sort_key a < sort_key x
    → insert a (x ∷ xs) ≡ a ∷ x ∷ xs
unfolding insert
insert-front a x xs h = let b : leb (sort_key x) (sort_key a) ≡ false = ground arith in rw b

insert-behind :
    (a x : PacketIndicator) (xs : List PacketIndicator)
    → sort_key x ≤ sort_key a
    → insert a (x ∷ xs) ≡ x ∷ insert a xs
unfolding insert
insert-behind a x xs h = let b : leb (sort_key x) (sort_key a) ≡ true = ground arith in rw b

insert-nil : (a : PacketIndicator) → insert a [] ≡ a ∷ []
unfolding insert
insert-nil a = refl

-- Two elements with the smaller key first.
insert-lt :
    (a b : PacketIndicator) (xs : List PacketIndicator)
    → sort_key a < sort_key b
    → insert a (insert b xs) ≡ insert b (insert a xs)
insert-lt a b [] h = rw (
  insert-nil a,
  insert-nil b,
  insert-front a b [] h,
  insert-behind b a [] (omega arith),
  insert-nil b,
)
insert-lt a b (x ∷ xs) h = elim (Bool-cases (leb (sort_key x) (sort_key a))) [
  | inl e ↦
      let ha : sort_key x ≤ sort_key a = ground arith in
      let hb : sort_key x ≤ sort_key b = omega arith in
      rw (
        insert-behind b x xs hb,
        insert-behind a x xs ha,
        insert-behind a x (insert b xs) ha,
        insert-behind b x (insert a xs) hb,
        insert-lt a b xs h,
      )
  | inr e ↦
      let ha : sort_key a < sort_key x = ground arith in
      elim (Bool-cases (leb (sort_key x) (sort_key b))) [
        | inl f ↦
            let hb : sort_key x ≤ sort_key b = ground arith in
            rw (
              insert-behind b x xs hb,
              insert-front a x xs ha,
              insert-front a x (insert b xs) ha,
              insert-behind b a (x ∷ xs) (omega arith),
              insert-behind b x xs hb,
            )
        | inr f ↦
            let hb : sort_key b < sort_key x = ground arith in
            rw (
              insert-front b x xs hb,
              insert-front a x xs ha,
              insert-front a b (x ∷ xs) h,
              insert-behind b a (x ∷ xs) (omega arith),
              insert-front b x xs hb,
            )
      ]
]

pub insert_comm :
    (a b : PacketIndicator) (xs : List PacketIndicator)
    → sort_key a ≢ sort_key b
    → insert a (insert b xs) ≡ insert b (insert a xs)
insert_comm a b xs h = elim (Bool-cases (leb (sort_key b) (sort_key a))) [
  | inl e ↦ sym (insert-lt b a xs (ground arith))
  | inr e ↦ insert-lt a b xs (ground arith)
]

-- An element with the largest key comes last.
pub insert-last :
    (a : PacketIndicator) (xs : List PacketIndicator)
    → All (λ x. sort_key x ≤ sort_key a) xs
    → insert a xs ≡ xs ++ a ∷ []
insert-last a [] h = insert-nil a
insert-last a (x ∷ xs) h = insert-behind a x xs h.0 ∙ ap (λ ys. x ∷ ys) (insert-last a xs h.1)
