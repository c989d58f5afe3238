-- ===== src/Config/Comments.antt =====
-- The lines of comment that `trimComments` of internal/config/config.go leaves out.
use ikago.Base.{ℕ, Bytes, [], ◌∷◌, ◌≡◌, refl, true, Bool-cases, inl, inr, ◌==◌, arith}
use ikago.Config.{is_space, is_comment}

-- The white space of a line.
pub data White : ℕ → Type 0 where
  tab : White 9
  line_feed : White 10
  form_feed : White 12
  carriage_return : White 13
  space : White 32

-- A line of comment: `#` stands first, or first behind white space.
pub data Comment : Bytes → Type 0 where
  mark : {rest : Bytes} → Comment (35 ∷ rest)
  behind : {b : ℕ} {rest : Bytes} → White b → Comment rest → Comment (b ∷ rest)

is_space-White : (b : ℕ) → is_space b ≡ true → White b
unfolding is_space
is_space-White b h = elim (Bool-cases (b == 9)) [
  | inl e ↦ let at : b ≡ 9 = ground arith in rw at White.tab
  | inr e ↦ elim (Bool-cases (b == 10)) [
    | inl f ↦ let at : b ≡ 10 = ground arith in rw at White.line_feed
    | inr f ↦ elim (Bool-cases (b == 12)) [
      | inl i ↦ let at : b ≡ 12 = ground arith in rw at White.form_feed
      | inr i ↦ elim (Bool-cases (b == 13)) [
        | inl j ↦ let at : b ≡ 13 = ground arith in rw at White.carriage_return
        | inr j ↦
            let left = rw (e, f, i, j) at h in let at : b ≡ 32 = ground arith in rw at White.space
      ]
    ]
  ]
]

White-is_space : {b : ℕ} → White b → is_space b ≡ true
unfolding is_space
White-is_space White.tab = refl
White-is_space White.line_feed = refl
White-is_space White.form_feed = refl
White-is_space White.carriage_return = refl
White-is_space White.space = refl

pub is_comment-Comment : (l : Bytes) → is_comment l ≡ true → Comment l
unfolding is_comment
is_comment-Comment [] h = cc
is_comment-Comment (b ∷ rest) h = elim (Bool-cases (is_space b)) [
  | inl e ↦ Comment.behind (is_space-White b e) (is_comment-Comment rest (rw e at h))
  | inr e ↦ let mark : b ≡ 35 = (let f = rw e at h in ground arith) in rw mark Comment.mark
]

pub Comment-is_comment : {l : Bytes} → Comment l → is_comment l ≡ true
unfolding is_comment is_space
Comment-is_comment Comment.mark = refl
Comment-is_comment (Comment.behind w c) = rw (White-is_space w) (Comment-is_comment c)
