-- ===== src/Edge/Utils/Tests.antt =====
-- Witnesses and tests for edge/utils/utils.go on concrete files.
use sdcc_project.Base.{◌≡◌, refl, [], ◌∷◌, ok, some, arith}
use sdcc_project.Base.Dict.{insert}
use sdcc_project.Base.Int.{negsuc}
use sdcc_project.Edge.Utils.Text.{
  is_space, text_discrete, lines, split_at_equals, drop_cr, trim_left, trim_right,
}
use sdcc_project.Edge.Utils.Config.{read_lines, put_line, read_config_file}
use sdcc_project.Edge.Utils.Config.RoundTrip.{
  Entry, IsPrintable, printed, put_all, read_config_file-printed,
}
use sdcc_project.Edge.Utils.Numbers.{parse_int}
use sdcc_project.Edge.Utils.Network.{generate_unique_random_id, random_id}

abbrev entry : Entry
entry = record {
  indent = b' ' ∷ [];
  key = b'K' ∷ [];
  gap = [];
  pad = b'\t' ∷ [];
  value = b'a' ∷ b' ' ∷ b'=' ∷ [];
  tail = b'\r' ∷ [];
}

entry-IsPrintable : IsPrintable entry
unfolding is_space
entry-IsPrintable = record {
  indent_blank = (refl, tt);
  gap_blank = tt;
  pad_blank = (refl, tt);
  tail_blank = (refl, tt);
  key_starts = refl;
  key_ends = refl;
  value_starts = refl;
  value_ends = refl;
  one_equals = ((λ e. ground arith), tt);
  one_line = omega arith;
  fits = omega arith;
}

read_config_file-printed_example :
    read_config_file (ok (printed (entry ∷ entry ∷ []))) ≡ ok (put_all (entry ∷ entry ∷ []) [])
read_config_file-printed_example =
    read_config_file-printed (entry ∷ entry ∷ []) (entry-IsPrintable, (entry-IsPrintable, tt))

-- A line without an equals sign is passed over, and the last line needs no line feed.
reads_two_lines :
    read_config_file (ok (b'#' ∷ b'\n' ∷ b'A' ∷ b'=' ∷ b'1' ∷ []))
    ≡ ok ((b'A' ∷ [], b'1' ∷ []) ∷ [])
unfolding read_config_file read_lines put_line lines split_at_equals drop_cr trim_left trim_right
    is_space insert text_discrete
reads_two_lines = refl

parses_negative : parse_int (b'-' ∷ b'1' ∷ b'2' ∷ []) ≡ some (negsuc 11)
unfolding parse_int
parses_negative = refl

-- The first id is taken.
draws_again :
    generate_unique_random_id 2 (λ i. ok (i ∷ 0 ∷ 0 ∷ [])) 0 (random_id (0 ∷ 0 ∷ 0 ∷ []) ∷ [])
    ≡ some (ok (random_id (1 ∷ 0 ∷ 0 ∷ [])))
unfolding generate_unique_random_id text_discrete
draws_again = refl
