-- ===== src/Conf/Tokens.antt =====
-- The tokens of a line.
use myir_bluetooth.Common.{
  ℕ, ◌+◌, ◌≤◌, ◌<◌, true, false, some, [], ◌∷◌, ◌++◌, ◌≡◌, ◌≢◌, ◌⊎◌, arith, Bytes, length,
  Bool-cases, Option-cases, inl, inr, refl, ap, All, ◌∙◌, length-append, sym,
}
use mathlib.Core.Path.{subst}
use myir_bluetooth.Conf.Lines.{
  is_delimiter, skip_delimiters, token, after_token, non_empty, strtok, is_comment, parse_line,
}

-- A blank, '=', a newline, a carriage return or a tab; and any other byte.
abbrev pub IsGap : ℕ → Type 0
IsGap x = (x ≡ 32) ⊎ ((x ≡ 61) ⊎ ((x ≡ 10) ⊎ ((x ≡ 13) ⊎ (x ≡ 9))))

abbrev pub IsLetter : ℕ → Type 0
IsLetter x = (x ≢ 32) × (x ≢ 61) × (x ≢ 10) × (x ≢ 13) × (x ≢ 9)

-- What stands behind a word: nothing, or a gap.
abbrev pub Ends : Bytes → Type 0
Ends [] = Unit {0}
Ends (x ∷ s) = IsGap x

-- The line does not begin with '#'.
abbrev pub IsPlain : Bytes → Type 0
IsPlain [] = Unit {0}
IsPlain (x ∷ s) = x ≢ 35

-- The line is a gap or nothing, the name, a gap, the value, and nothing or a gap and anything.
pub record Entry (line name value : Bytes) : Type 0 where
  pub lead : Bytes
  pub between : Bytes
  pub rest : Bytes
  pub layout : line ≡ lead ++ (name ++ (between ++ (value ++ rest)))
  pub plain : IsPlain line
  pub lead_gap : All IsGap lead
  pub between_gap : All IsGap between
  pub parted : 0 < length between
  pub name_word : All IsLetter name
  pub value_word : All IsLetter value
  pub named : 0 < length name
  pub valued : 0 < length value
  pub end : Ends rest

delimiter-IsGap : (x : ℕ) → is_delimiter x ≡ true → IsGap x
unfolding is_delimiter
delimiter-IsGap x h = ground arith

delimiter-IsLetter : (x : ℕ) → is_delimiter x ≡ false → IsLetter x
unfolding is_delimiter
delimiter-IsLetter x h = ground arith

-- What is behind the byte that `strtok` writes over.
abbrev pub past : Bytes → Bytes
past [] = []
past (x ∷ s) = s

skip_split : (s : Bytes) → (lead : Bytes) × (s ≡ lead ++ skip_delimiters s) × All IsGap lead
unfolding skip_delimiters
skip_split [] = ([], refl, tt)
skip_split (x ∷ s) = elim (Bool-cases (is_delimiter x)) [
  | inl gap ↦
      let (lead, layout, gaps) = skip_split s in
      (x ∷ lead, rw gap (ap (λ t. x ∷ t) layout), (delimiter-IsGap x gap, gaps))
  | inr letter ↦ ([], rw letter refl, tt)
]

token_split :
    (s : Bytes)
    → (tail : Bytes) × (s ≡ token s ++ tail)
      × (after_token s ≡ past tail)
      × Ends tail
      × All IsLetter (token s)
unfolding token after_token
token_split [] = ([], refl, refl, tt, tt)
token_split (x ∷ s) = elim (Bool-cases (is_delimiter x)) [
  | inl gap ↦ (x ∷ s, rw gap refl, rw gap refl, delimiter-IsGap x gap, rw gap tt)
  | inr letter ↦
      let (tail, layout, rest, end, word) = token_split s in
      (
        tail,
        rw letter (ap (λ t. x ∷ t) layout),
        rw letter rest,
        end,
        rw letter (delimiter-IsLetter x letter, word),
      )
]

-- Of a token: where it stands in the text.
record Token (s t rest : Bytes) : Type 0 where
  lead : Bytes
  tail : Bytes
  layout : s ≡ lead ++ (t ++ tail)
  gaps : All IsGap lead
  word : All IsLetter t
  some_byte : 0 < length t
  end : Ends tail
  behind : rest ≡ past tail

non_empty-eq :
    (t rest : Bytes) {a b : Bytes}
    → non_empty t rest ≡ some (a, b)
    → (a ≡ t) × (b ≡ rest) × (0 < length t)
unfolding non_empty
non_empty-eq [] rest h = absurd (ground arith)
non_empty-eq (x ∷ t) rest h = (ground arith, ground arith, omega arith)

strtok-Token : (s : Bytes) {t rest : Bytes} → strtok s ≡ some (t, rest) → Token s t rest
unfolding strtok
strtok-Token s {t} {rest} h =
    let u : Bytes = skip_delimiters s in
    let (e₁, e₂, long) = non_empty-eq (token u) (after_token u) h in
    let (lead, layout, gaps) = skip_split s in
    let (tail, parts, after, end, word) = token_split u in
    record {
      lead = lead;
      tail = tail;
      layout = rw e₁ (layout ∙ ap (λ v. lead ++ v) parts);
      gaps = gaps;
      word = rw e₁ word;
      some_byte = rw e₁ long;
      end = end;
      behind = e₂ ∙ after;
    }

comment-IsPlain : (line : Bytes) → is_comment line ≡ false → IsPlain line
unfolding is_comment
comment-IsPlain [] h = tt
comment-IsPlain (x ∷ line) h = ground arith

-- The gap in front of a word that stands behind another one is not empty.
between_words :
    (tail lead value rest : Bytes)
    → Ends tail
    → past tail ≡ lead ++ (value ++ rest)
    → 0 < length value
    → All IsGap lead
    → (between : Bytes) × (tail ≡ between ++ (value ++ rest))
      × All IsGap between
      × (0 < length between)
between_words [] lead value rest end at some_byte gaps =
    let size = ap length at in
    let parts = length-append lead (value ++ rest) in
    absurd (omega (arith, length-append value rest))
between_words (x ∷ tail) lead value rest end at some_byte gaps =
    (x ∷ lead, ap (λ t. x ∷ t) at, (end, gaps), omega arith)

Token-Entry :
    (line name value r rest : Bytes)
    → IsPlain line
    → Token line name r
    → Token r value rest
    → Entry line name value
Token-Entry line name value r rest plain a b =
    let (between, layout, gaps, parted) =
      between_words a.tail b.lead value b.tail a.end (sym a.behind ∙ b.layout) b.some_byte b.gaps in
    record {
      lead = a.lead;
      between = between;
      rest = b.tail;
      layout = a.layout ∙ ap (λ t. a.lead ++ (name ++ t)) layout;
      plain = plain;
      lead_gap = a.gaps;
      between_gap = gaps;
      parted = parted;
      name_word = a.word;
      value_word = b.word;
      named = a.some_byte;
      valued = b.some_byte;
      end = b.end;
    }

-- A line that gives a name and a value is an entry of that name and value: it does not begin with
-- '#'; the name is its first word, a gap of blanks, equal signs, newlines, carriage returns and tabs
-- is in between, and the value is its second word.
pub parse_line_lem :
    (line : Bytes) {name value : Bytes}
    → parse_line line ≡ some (name, value)
    → Entry line name value
unfolding parse_line
parse_line_lem line {name} {value} h = elim (Bool-cases (is_comment line)) [
  | inl comment ↦ absurd (ground arith)
  | inr plain ↦ elim (Option-cases (strtok line)) [
    | inl empty ↦ absurd (ground arith)
    | inr ((t, r), first) ↦ elim (Option-cases (strtok r)) [
      | inl missing ↦ absurd (ground arith)
      | inr ((u, q), second) ↦
          let same : (t ≡ name) × (u ≡ value) = ground arith in
          let found =
            Token-Entry line t u r q (comment-IsPlain line plain) (strtok-Token line first)
              (strtok-Token r second) in
          subst (λ n. Entry line n value) same.0 (subst (Entry line t) same.1 found)
    ]
  ]
]

-- Name and value fit into the line.
pub Entry-size :
    (line name value : Bytes) → Entry line name value → length name + length value ≤ length line
Entry-size line name value n = omega (
  arith,
  ap length n.layout,
  length-append n.lead (name ++ (n.between ++ (value ++ n.rest))),
  length-append name (n.between ++ (value ++ n.rest)),
  length-append n.between (value ++ n.rest),
  length-append value n.rest,
)
