-- ===== src/Config/Tests.antt =====
-- A file with a comment behind white space, and a file of nothing else.
use ikago.Base.{◌≡◌, refl, Bytes, [], ◌∷◌}
use ikago.Config.{split_lines, is_space, is_comment, filtered, trim_comments}
use ikago.Config.Lines.{Trimmed, trim_comments-Trimmed}

abbrev text : Bytes
text = 98 ∷ 10 ∷ 32 ∷ 35 ∷ 97 ∷ 10 ∷ 99 ∷ 35 ∷ []

only_comment : trim_comments (9 ∷ 35 ∷ 97 ∷ []) ≡ []
unfolding trim_comments
only_comment = refl

trim_comments-Trimmed_example :
    Trimmed text (98 ∷ 10 ∷ 99 ∷ 35 ∷ [])
    × (trim_comments (98 ∷ 10 ∷ 99 ∷ 35 ∷ []) ≡ 98 ∷ 10 ∷ 99 ∷ 35 ∷ [])
unfolding trim_comments split_lines filtered is_comment is_space
trim_comments-Trimmed_example = trim_comments-Trimmed text
