-- ===== src/Conf/Entries.antt =====
-- A line with a name and a value, as `vnd_load_conf` of libbt/src/conf.c takes it apart.
use myir_bluetooth.Common.{
  ℕ, ◌<◌, true, false, some, [], ◌∷◌, ◌++◌, ◌≡◌, arith, Bytes, length, refl, ap, All, ◌∙◌,
}
use myir_bluetooth.Conf.Lines.{
  is_delimiter, skip_delimiters, token, after_token, non_empty, strtok, is_comment, parse_line,
}
use myir_bluetooth.Conf.Tokens.{IsGap, IsLetter, Ends, IsPlain, Entry, past}

delimiter_of : (x : ℕ) → IsGap x → is_delimiter x ≡ true
unfolding is_delimiter
delimiter_of x h = ground arith

no_delimiter : (x : ℕ) → IsLetter x → is_delimiter x ≡ false
unfolding is_delimiter
no_delimiter x h = ground arith

skip_gap : (lead s : Bytes) → All IsGap lead → skip_delimiters (lead ++ s) ≡ skip_delimiters s
unfolding skip_delimiters
skip_gap [] s gaps = refl
skip_gap (x ∷ lead) s gaps = rw (delimiter_of x gaps.0) (skip_gap lead s gaps.1)

no_skip : (t s : Bytes) → 0 < length t → All IsLetter t → skip_delimiters (t ++ s) ≡ t ++ s
unfolding skip_delimiters
no_skip [] s some_byte word = absurd (omega arith)
no_skip (x ∷ t) s some_byte word = rw (no_delimiter x word.0) refl

token_end : (rest : Bytes) → Ends rest → (token rest ≡ []) × (after_token rest ≡ past rest)
unfolding token after_token
token_end [] end = (refl, refl)
token_end (x ∷ rest) end = rw (delimiter_of x end) (refl, refl)

token_word :
    (t rest : Bytes)
    → All IsLetter t
    → Ends rest
    → (token (t ++ rest) ≡ t) × (after_token (t ++ rest) ≡ past rest)
unfolding token after_token
token_word [] rest word end = token_end rest end
token_word (x ∷ t) rest word end =
    let (same, after) = token_word t rest word.1 end in
    rw (no_delimiter x word.0) (ap (λ s. x ∷ s) same, after)

non_empty_lem : (t rest : Bytes) → 0 < length t → non_empty t rest ≡ some (t, rest)
unfolding non_empty
non_empty_lem [] rest h = absurd (omega arith)
non_empty_lem (x ∷ t) rest h = refl

strtok_word :
    (lead t rest : Bytes)
    → All IsGap lead
    → All IsLetter t
    → 0 < length t
    → Ends rest
    → strtok (lead ++ (t ++ rest)) ≡ some (t, past rest)
unfolding strtok
strtok_word lead t rest gaps word some_byte end =
    let (same, after) = token_word t rest word end in
    let skipped = skip_gap lead (t ++ rest) gaps ∙ no_skip t rest some_byte word in
    rw skipped (rw same (rw after (non_empty_lem t (past rest) some_byte)))

plain_comment : (line : Bytes) → IsPlain line → is_comment line ≡ false
unfolding is_comment
plain_comment [] h = refl
plain_comment (x ∷ line) h = ground arith

gap-Ends : (between s : Bytes) → 0 < length between → All IsGap between → Ends (between ++ s)
gap-Ends [] s parted gaps = absurd (omega arith)
gap-Ends (x ∷ between) s parted gaps = gaps.0

-- Behind the gap's first byte, which `strtok` writes over, the value is the next token.
second_word :
    (between value rest : Bytes)
    → All IsGap between
    → 0 < length between
    → All IsLetter value
    → 0 < length value
    → Ends rest
    → strtok (past (between ++ (value ++ rest))) ≡ some (value, past rest)
second_word [] value rest gaps parted word some_byte end = absurd (omega arith)
second_word (x ∷ between) value rest gaps parted word some_byte end =
    strtok_word between value rest gaps.1 word some_byte end

-- Every entry gives its name and its value.
pub parse_line-Entry :
    (line name value : Bytes) → Entry line name value → parse_line line ≡ some (name, value)
unfolding parse_line
parse_line-Entry line name value n =
    let tail : Bytes = n.between ++ (value ++ n.rest) in
    let first : strtok line ≡ some (name, past tail) =
      ap strtok n.layout
      ∙ strtok_word n.lead name tail n.lead_gap n.name_word n.named
          (gap-Ends n.between (value ++ n.rest) n.parted n.between_gap) in
    let second =
      second_word n.between value n.rest n.between_gap n.parted n.value_word n.valued n.end in
    ground (arith, plain_comment line n.plain, first, second)
