-- ===== src/Conf/Lines.antt =====
-- The text of the file: lines as `fgets` reads them, and their tokens as `strtok` finds them.
use mathlib.Core.List.{reverse}
use myir_bluetooth.Common.{
  ℕ, ◌-◌, Bool, false, ◌||◌, Option, none, some, List, [], ◌∷◌, ◌==◌, if◌then◌else◌, Bytes, ◌>>=◌,
}

abbrev pub conf_comment : ℕ
conf_comment = b'#'

abbrev pub conf_max_line_len : ℕ
conf_max_line_len = 255

-- CONF_DELIMITERS.
unfoldable pub is_delimiter : ℕ → Bool
is_delimiter x = x == b' ' || (x == b'=' || (x == b'\n' || (x == b'\r' || x == b'\t')))

-- `fgets` again and again: a line ends behind a newline, or when the buffer is full. `room` is
-- what is left of the buffer, and `line` what was read, last byte first.
unfoldable pub split_lines : ℕ → Bytes → Bytes → List Bytes
split_lines room [] [] = []
split_lines room (x ∷ line) [] = reverse (x ∷ line) ∷ []
split_lines room line (x ∷ s) =
    let full : Bool = x == b'\n' || room == 1 in
    let rest =
      split_lines (if full then conf_max_line_len else room - 1) (if full then [] else x ∷ line)
        s in
    if full then reverse (x ∷ line) ∷ rest else rest

unfoldable pub lines : Bytes → List Bytes
unfolding split_lines
lines text = split_lines conf_max_line_len [] text

unfoldable pub skip_delimiters : Bytes → Bytes
skip_delimiters [] = []
skip_delimiters (x ∷ s) = let rest = skip_delimiters s in if is_delimiter x then rest else x ∷ s

-- The bytes up to the next delimiter, and what stands behind that delimiter.
unfoldable pub token : Bytes → Bytes
token [] = []
token (x ∷ s) = let rest = token s in if is_delimiter x then [] else x ∷ rest

unfoldable pub after_token : Bytes → Bytes
after_token [] = []
after_token (x ∷ s) = let rest = after_token s in if is_delimiter x then s else rest

-- `strtok`: the token and the rest of the text; `none` is NULL.
unfoldable pub non_empty : Bytes → Bytes → Option (Bytes × Bytes)
non_empty [] rest = none
non_empty (x ∷ t) rest = some (x ∷ t, rest)

unfoldable pub strtok : Bytes → Option (Bytes × Bytes)
unfolding non_empty
strtok s = let t : Bytes = skip_delimiters s in non_empty (token t) (after_token t)

-- `line[0] == CONF_COMMENT`.
unfoldable pub is_comment : Bytes → Bool
is_comment [] = false
is_comment (x ∷ s) = x == conf_comment

-- Name and value of a line, unless it is a comment or lacks one of them.
unfoldable pub parse_line : Bytes → Option (Bytes × Bytes)
unfolding is_comment
parse_line line =
    if is_comment line
    then none
    else (do (name, rest) ← strtok line; (value, _) ← strtok rest; some (name, value))
