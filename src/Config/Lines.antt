-- ===== src/Config/Lines.antt =====
-- `trimComments` of internal/config/config.go, line by line.
use ikago.Base.{
  ℕ, Bytes, List, [], ◌∷◌, ◌++◌, ◌≡◌, refl, ap, ◌∙◌, sym, false, arith, Bool-cases, inl, inr, ◌==◌,
}
use ikago.Config.Comments.{Comment, is_comment-Comment, Comment-is_comment}
use ikago.Config.{onto, split_lines, join_lines, is_comment, filtered, trim_comments}

-- A line: no line feed is in it.
pub data Unbroken : Bytes → Type 0 where
  nil : Unbroken []
  byte : {b : ℕ} {l : Bytes} → (b == 10) ≡ false → Unbroken l → Unbroken (b ∷ l)

pub data Lines : List Bytes → Type 0 where
  none : Lines []
  line : {l : Bytes} {ls : List Bytes} → Unbroken l → Lines ls → Lines (l ∷ ls)

onto-Lines : (b : ℕ) (ls : List Bytes) → (b == 10) ≡ false → Lines ls → Lines (onto b ls)
unfolding onto
onto-Lines b [] h p = Lines.line (Unbroken.byte h Unbroken.nil) Lines.none
onto-Lines b (l ∷ ls) h (Lines.line u p) = Lines.line (Unbroken.byte h u) p

split_lines-Lines : (d : Bytes) → Lines (split_lines d)
unfolding split_lines
split_lines-Lines [] = Lines.line Unbroken.nil Lines.none
split_lines-Lines (b ∷ rest) = elim (Bool-cases (b == 10)) [
  | inl e ↦ rw e (Lines.line Unbroken.nil (split_lines-Lines rest))
  | inr e ↦ rw e (onto-Lines b (split_lines rest) e (split_lines-Lines rest))
]

filtered-Lines : (ls : List Bytes) → Lines ls → Lines (filtered ls)
unfolding filtered
filtered-Lines [] p = p
filtered-Lines (l ∷ ls) (Lines.line u p) = elim (Bool-cases (is_comment l)) [
  | inl e ↦ rw e (filtered-Lines ls p)
  | inr e ↦ rw e (Lines.line u (filtered-Lines ls p))
]

split_lines-append :
    (l rest : Bytes) → Unbroken l → split_lines (l ++ 10 ∷ rest) ≡ l ∷ split_lines rest
unfolding split_lines onto
split_lines-append [] rest u = refl
split_lines-append (b ∷ l) rest (Unbroken.byte h u) = rw (h, split_lines-append l rest u)

split_lines-one : (l : Bytes) → Unbroken l → split_lines l ≡ l ∷ []
unfolding split_lines onto
split_lines-one [] u = refl
split_lines-one (b ∷ l) (Unbroken.byte h u) = rw (h, split_lines-one l u)

-- The second lines are the first without those of comment.
pub data Kept : List Bytes → List Bytes → Type 0 where
  end : Kept [] []
  left_out : {l : Bytes} {ls ms : List Bytes} → Comment l → Kept ls ms → Kept (l ∷ ls) ms
  taken : {l : Bytes} {ls ms : List Bytes} → ¬ Comment l → Kept ls ms → Kept (l ∷ ls) (l ∷ ms)

filtered-Kept : (ls : List Bytes) → Kept ls (filtered ls)
unfolding filtered
filtered-Kept [] = Kept.end
filtered-Kept (l ∷ ls) = elim (Bool-cases (is_comment l)) [
  | inl e ↦ rw e (Kept.left_out (is_comment-Comment l e) (filtered-Kept ls))
  | inr e ↦ rw e (Kept.taken (λ c. let f = Comment-is_comment c in cc) (filtered-Kept ls))
]

split_lines-some : (d : Bytes) → (l : Bytes) × (ls : List Bytes) × (split_lines d ≡ l ∷ ls)
unfolding split_lines
split_lines-some [] = ([], [], refl)
split_lines-some (b ∷ rest) = elim (Bool-cases (b == 10)) [
  | inl e ↦ rw e ([], split_lines rest, refl)
  | inr e ↦ rw e (onto-some b (split_lines rest))
]
  where
    onto-some : (b : ℕ) (ls : List Bytes) → (l : Bytes) × (ms : List Bytes) × (onto b ls ≡ l ∷ ms)
    onto-some b [] = unfold onto in (b ∷ [], [], refl)
    onto-some b (l ∷ ls) = unfold onto in (b ∷ l, ls, refl)

join_lines-onto : (b : ℕ) (ls : List Bytes) → join_lines (onto b ls) ≡ b ∷ join_lines ls
unfolding onto join_lines
join_lines-onto b [] = refl
join_lines-onto b (l ∷ []) = refl
join_lines-onto b (l ∷ m ∷ ls) = refl

join_lines-split_lines : (d : Bytes) → join_lines (split_lines d) ≡ d
unfolding split_lines join_lines
join_lines-split_lines [] = refl
join_lines-split_lines (b ∷ rest) = elim (Bool-cases (b == 10)) [
  | inl e ↦
      let (l, ls, h) = split_lines-some rest in
      let feed : b ≡ 10 = ground arith in
      let before : join_lines (l ∷ ls) ≡ rest =
        ap join_lines (sym h) ∙ join_lines-split_lines rest in
      rw (e, h, before, feed) refl
  | inr e ↦
      rw e (join_lines-onto b (split_lines rest) ∙ ap (λ x. b ∷ x) (join_lines-split_lines rest))
]

-- The lines of a text that has lines; a text without one is an empty line.
abbrev at_least_one : List Bytes → List Bytes
at_least_one [] = [] ∷ []
at_least_one (l ∷ ls) = l ∷ ls

split_lines-join_lines :
    (ls : List Bytes) → Lines ls → split_lines (join_lines ls) ≡ at_least_one ls
unfolding join_lines split_lines
split_lines-join_lines [] p = refl
split_lines-join_lines (l ∷ []) (Lines.line u p) = split_lines-one l u
split_lines-join_lines (l ∷ m ∷ ls) (Lines.line u p) =
    split_lines-append l (join_lines (m ∷ ls)) u
    ∙ ap (λ x. l ∷ x) (split_lines-join_lines (m ∷ ls) p)

filtered-filtered : (ls : List Bytes) → filtered (filtered ls) ≡ filtered ls
unfolding filtered
filtered-filtered [] = refl
filtered-filtered (l ∷ ls) = elim (Bool-cases (is_comment l)) [
  | inl e ↦ rw (filtered, e) (filtered-filtered ls)
  | inr e ↦ rw (filtered, e, e, filtered-filtered ls) refl
]

join_lines-again :
    (ls : List Bytes) → filtered ls ≡ ls → join_lines (filtered (at_least_one ls)) ≡ join_lines ls
unfolding filtered is_comment join_lines
join_lines-again [] h = refl
join_lines-again (l ∷ ls) h = ap join_lines h

-- `e` is the text `d` without its lines of comment.
pub record Trimmed (d e : Bytes) : Type 0 where
  pub lines : List Bytes
  pub unbroken : Lines lines
  pub whole : join_lines lines ≡ d
  pub kept : List Bytes
  pub left : Kept lines kept
  pub result : e ≡ join_lines kept

-- What trimComments returns are the lines of the file, joined by line feeds, without those in which
-- `#` stands first, or first behind white space; the others are as they were, in their order, a
-- carriage return at their end included. Trimmed again, the text stays as it is.
pub trim_comments-Trimmed :
    (d : Bytes) → Trimmed d (trim_comments d) × (trim_comments (trim_comments d) ≡ trim_comments d)
unfolding trim_comments
trim_comments-Trimmed d = (
  record {
    lines = split_lines d;
    unbroken = split_lines-Lines d;
    whole = join_lines-split_lines d;
    kept = filtered (split_lines d);
    left = filtered-Kept (split_lines d);
    result = refl;
  },
  again,
)
  where
    at : split_lines (trim_comments d) ≡ at_least_one (filtered (split_lines d))
    at =
        split_lines-join_lines (filtered (split_lines d))
          (filtered-Lines (split_lines d) (split_lines-Lines d))

    again : trim_comments (trim_comments d) ≡ trim_comments d
    again =
        ap (λ ls. join_lines (filtered ls)) at
        ∙ join_lines-again (filtered (split_lines d)) (filtered-filtered (split_lines d))
