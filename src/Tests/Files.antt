-- ===== src/Tests/Files.antt =====
-- The configuration file.
use myir_bluetooth.Common.{
  All, ◌<◌, Option, none, some, ◌≡◌, refl, arith, Bytes, codes, length, replicate, ◌++◌, ℕ, zero,
  suc, [],
}
use mathlib.Core.Path.{subst}
use myir_bluetooth.Conf.Bounds.{NameFits, vnd_load_conf_total}
use myir_bluetooth.Conf.Entries.{parse_line-Entry}
use myir_bluetooth.Conf.Overflow.{vnd_load_conf_overflow}
use myir_bluetooth.Platform.{Env}
use myir_bluetooth.Conf.Lines.{
  parse_line, lines, split_lines, is_comment, strtok, non_empty, token, after_token,
  skip_delimiters, is_delimiter,
}
use myir_bluetooth.Conf.Loading.{vnd_load_conf}
use myir_bluetooth.Conf.Tokens.{Entry, IsLetter, parse_line_lem}
use myir_bluetooth.Config.{nordic_config}
use myir_bluetooth.Tests.Bench.{bench, ready}
use myir_bluetooth.World.{World}

abbrev port_line : Bytes
port_line = codes "UartPort = /dev/ttymxc1"

parse_line_lem_example : Entry port_line (codes "UartPort") (codes "/dev/ttymxc1")
unfolding parse_line is_comment strtok non_empty token after_token skip_delimiters is_delimiter
parse_line_lem_example = parse_line_lem port_line refl

words : All IsLetter (codes "UartPort") × All IsLetter (codes "/dev/ttymxc1")
words = ground arith

port-Entry : Entry port_line (codes "UartPort") (codes "/dev/ttymxc1")
port-Entry = record {
  lead = [];
  between = codes " = ";
  rest = [];
  layout = refl;
  plain = ground arith;
  lead_gap = tt;
  between_gap = ground arith;
  parted = omega arith;
  name_word = words.0;
  value_word = words.1;
  named = omega arith;
  valued = omega arith;
  end = tt;
}

parse_line-Entry_example : parse_line port_line ≡ some (codes "UartPort", codes "/dev/ttymxc1")
parse_line-Entry_example =
    parse_line-Entry port_line (codes "UartPort") (codes "/dev/ttymxc1") port-Entry

abbrev long_name : Bytes
long_name = replicate 128 97

long_name-IsLetter : (n : ℕ) → All IsLetter (replicate n 97)
long_name-IsLetter zero = tt
long_name-IsLetter (suc n) = (ground arith, long_name-IsLetter n)

-- A file with this name.
abbrev long_bench : Env
long_bench = record bench { conf_answer = λ path. some (codes "FwPatchFileName=" ++ long_name) }

vnd_load_conf_overflow_example :
    vnd_load_conf nordic_config long_bench nordic_config.conf_file ready ≡ none
vnd_load_conf_overflow_example =
    vnd_load_conf_overflow nordic_config long_bench nordic_config.conf_file long_name ready refl
      (long_name-IsLetter 128) (omega arith) (omega arith)

abbrev listing : Bytes
listing = codes "FwPatchFileName = a.hcd\n"

same_text : (s t : Bytes) → some s ≡ some t → s ≡ t
same_text s t h = ground arith

value_size :
    (value : Bytes)
    → ◌≡◌ {A = Option (Bytes × Bytes)}
        (some (codes "FwPatchFileName", codes "a.hcd"))
        (some (codes "FwPatchFileName", value))
    → length value < 128
value_size value h = ground arith

listing-All : All NameFits (lines listing)
unfolding lines split_lines parse_line is_comment strtok non_empty token after_token skip_delimiters
    is_delimiter
listing-All = (value_size, tt)

vnd_load_conf_total_example :
    (w' : World) × (vnd_load_conf nordic_config bench nordic_config.conf_file ready ≡ some w')
vnd_load_conf_total_example =
    vnd_load_conf_total nordic_config bench nordic_config.conf_file ready
      (λ text found. subst (λ t. All NameFits (lines t)) (same_text listing text found) listing-All)
