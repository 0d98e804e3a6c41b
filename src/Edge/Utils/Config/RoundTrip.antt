-- ===== src/Edge/Utils/Config/RoundTrip.antt =====
-- ReadConfigFile (edge/utils/utils.go) reads back a file of settings, whatever blanks stand around them.
use sdcc_project.Base.{
  ℕ, ◌<◌, ◌≡◌, ◌≢◌, refl, ap, ◌∙◌, true, false, List, [], ◌∷◌, ◌++◌, some, ok, ◌==◌, All,
  All-append, arith, lt→ltb,
}
use sdcc_project.Base.Dict.{insert}
use sdcc_project.Edge.Utils.Text.{
  Text, text_discrete, byte_length, is_space, trim_left, trim_right, trim_space, split_at_equals,
  lines, drop_cr,
}
use sdcc_project.Edge.Utils.Config.{
  Config, put_line, put_parts, read_lines, read_config_file, token_limit,
}

-- A setting, with the blanks around its two texts.
pub record Entry : Type 0 where
  pub indent : Text
  pub key : Text
  pub gap : Text
  pub pad : Text
  pub value : Text
  pub tail : Text

abbrev pub before_equals : Entry → Text
before_equals e = e.indent ++ (e.key ++ e.gap)

abbrev pub after_equals : Entry → Text
after_equals e = e.pad ++ (e.value ++ e.tail)

abbrev pub line_of : Entry → Text
line_of e = before_equals e ++ (b'=' ∷ after_equals e)

abbrev pub printed : List Entry → Text
printed [] = []
printed (e ∷ es) = line_of e ++ (b'\n' ∷ printed es)

abbrev pub IsBlank : Text → Type 0
IsBlank = All (λ c. is_space c ≡ true)

abbrev pub Lacks : ℕ → Text → Type 0
Lacks x = All (λ c. c ≢ x)

abbrev pub StartsSolid : Text → Type 0
StartsSolid [] = Unit
StartsSolid (c ∷ s) = is_space c ≡ false

abbrev pub EndsSolid : Text → Type 0
EndsSolid [] = Unit
EndsSolid (c ∷ []) = is_space c ≡ false
EndsSolid (c ∷ d ∷ s) = EndsSolid (d ∷ s)

pub record IsPrintable (e : Entry) : Type 0 where
  pub indent_blank : IsBlank e.indent
  pub gap_blank : IsBlank e.gap
  pub pad_blank : IsBlank e.pad
  pub tail_blank : IsBlank e.tail
  pub key_starts : StartsSolid e.key
  pub key_ends : EndsSolid e.key
  pub value_starts : StartsSolid e.value
  pub value_ends : EndsSolid e.value
  pub one_equals : Lacks b'=' e.key
  pub one_line : Lacks b'\n' (line_of e)
  pub fits : byte_length (line_of e) < token_limit

-- The entries, put into the map one after the other.
abbrev pub put_all : List Entry → Config → Config
put_all [] config = config
put_all (e ∷ es) config = put_all es (insert text_discrete e.key e.value config)

trim_left-blank : (p s : Text) → IsBlank p → trim_left (p ++ s) ≡ trim_left s
unfolding trim_left
trim_left-blank [] s h = refl
trim_left-blank (c ∷ p) s h = rw h.0 (trim_left-blank p s h.1)

trim_right-blank : (q : Text) → IsBlank q → trim_right q ≡ []
unfolding trim_right
trim_right-blank [] h = refl
trim_right-blank (c ∷ q) h = rw (trim_right-blank q h.1) (rw h.0 refl)

trim_right-solid : (k q : Text) → EndsSolid k → IsBlank q → trim_right (k ++ q) ≡ k
unfolding trim_right
trim_right-solid [] q k h = trim_right-blank q h
trim_right-solid (c ∷ []) q k h = rw (trim_right-blank q h) (rw k refl)
trim_right-solid (c ∷ d ∷ s) q k h = rw (trim_right-solid (d ∷ s) q k h) refl

trim_left-all : (q : Text) → IsBlank q → trim_left q ≡ []
unfolding trim_left
trim_left-all [] h = refl
trim_left-all (c ∷ q) h = rw h.0 (trim_left-all q h.1)

trim_solid : (k q : Text) → StartsSolid k → EndsSolid k → IsBlank q → trim_space (k ++ q) ≡ k
unfolding trim_left trim_right
trim_solid [] q s k h = ap trim_right (trim_left-all q h)
trim_solid (c ∷ k) q s e h = rw s (trim_right-solid (c ∷ k) q e h)

trim_padded :
    (p k q : Text)
    → IsBlank p
    → StartsSolid k
    → EndsSolid k
    → IsBlank q
    → trim_space (p ++ (k ++ q)) ≡ k
trim_padded p k q hp s e hq = ap trim_right (trim_left-blank p (k ++ q) hp) ∙ trim_solid k q s e hq

split-equals : (a b : Text) → Lacks b'=' a → split_at_equals (a ++ (b'=' ∷ b)) ≡ some (a, b)
unfolding split_at_equals
split-equals [] b h = refl
split-equals (c ∷ a) b h =
    let other : (c == b'=') ≡ false = ground (arith, h.0) in
    rw other (rw (split-equals a b h.1) refl)

lines-line : (l rest : Text) → Lacks b'\n' l → lines (l ++ (b'\n' ∷ rest)) ≡ l ∷ lines rest
unfolding lines
lines-line [] rest h = refl
lines-line (c ∷ l) rest h =
    let other : (c == b'\n') ≡ false = ground (arith, h.0) in
    rw other (rw (lines-line l rest h.1) refl)

drop_cr-append : (a b : Text) (x : ℕ) → drop_cr (a ++ (x ∷ b)) ≡ a ++ drop_cr (x ∷ b)
unfolding drop_cr
drop_cr-append [] b x = refl
drop_cr-append (c ∷ []) b x = refl
drop_cr-append (c ∷ d ∷ a) b x = ap (◌∷◌ c) (drop_cr-append (d ∷ a) b x)

drop_cr-equals : (b : Text) → drop_cr (b'=' ∷ b) ≡ b'=' ∷ drop_cr b
unfolding drop_cr
drop_cr-equals [] = refl
drop_cr-equals (d ∷ b) = refl

trim_left-drop_cr : (w : Text) → trim_left (drop_cr w) ≡ drop_cr (trim_left w)
unfolding trim_left drop_cr is_space
trim_left-drop_cr [] = refl
trim_left-drop_cr (c ∷ []) = ground arith
trim_left-drop_cr (c ∷ d ∷ s) = ground (arith, trim_left-drop_cr (d ∷ s))

trim_right-drop_cr : (w : Text) → trim_right (drop_cr w) ≡ trim_right w
unfolding trim_right drop_cr is_space
trim_right-drop_cr [] = refl
trim_right-drop_cr (c ∷ []) = ground arith
trim_right-drop_cr (c ∷ d ∷ s) = rw (trim_right-drop_cr (d ∷ s)) refl

blank-Lacks : (p : Text) → IsBlank p → Lacks b'=' p
unfolding is_space
blank-Lacks [] h = tt
blank-Lacks (c ∷ p) h = (λ e. ground (arith, h.0), blank-Lacks p h.1)

before-Lacks : (e : Entry) → IsPrintable e → Lacks b'=' (before_equals e)
before-Lacks e h =
    All-append (λ c. c ≢ b'=') e.indent (e.key ++ e.gap) (blank-Lacks e.indent h.indent_blank)
      (All-append (λ c. c ≢ b'=') e.key e.gap h.one_equals (blank-Lacks e.gap h.gap_blank))

put_line-printed :
    (e : Entry) (config : Config)
    → IsPrintable e
    → put_line (line_of e) config ≡ insert text_discrete e.key e.value config
unfolding put_line
put_line-printed e config h =
    let cut : drop_cr (line_of e) ≡ before_equals e ++ (b'=' ∷ drop_cr (after_equals e)) =
      drop_cr-append (before_equals e) (after_equals e) b'='
      ∙ ap (λ t. before_equals e ++ t) (drop_cr-equals (after_equals e)) in
    let right : trim_space (drop_cr (after_equals e)) ≡ e.value =
      ap trim_right (trim_left-drop_cr (after_equals e))
      ∙ trim_right-drop_cr (trim_left (after_equals e))
      ∙ trim_padded e.pad e.value e.tail h.pad_blank h.value_starts h.value_ends h.tail_blank in
    let left : trim_space (before_equals e) ≡ e.key =
      trim_padded e.indent e.key e.gap h.indent_blank h.key_starts h.key_ends h.gap_blank in
    ap (λ l. put_parts (split_at_equals l) config) cut
    ∙ ap (λ o. put_parts o config)
        (split-equals (before_equals e) (drop_cr (after_equals e)) (before-Lacks e h))
    ∙ ap (λ k. insert text_discrete k (trim_space (drop_cr (after_equals e))) config) left
    ∙ ap (λ v. insert text_discrete e.key v config) right

read_line :
    (l : Text) (ls : List Text) (config : Config)
    → byte_length l < token_limit
    → read_lines (l ∷ ls) config ≡ read_lines ls (put_line l config)
unfolding read_lines
read_line l ls config h = rw (lt→ltb (byte_length l) token_limit h, read_lines) refl

read_lines-printed :
    (es : List Entry) (config : Config)
    → All IsPrintable es
    → read_lines (lines (printed es)) config ≡ ok (put_all es config)
unfolding read_lines
read_lines-printed [] config h = unfold lines in refl
read_lines-printed (e ∷ es) config h =
    let l : lines (printed (e ∷ es)) ≡ line_of e ∷ lines (printed es) =
      lines-line (line_of e) (printed es) h.0.one_line in
    ap (λ ls. read_lines ls config) l
    ∙ read_line (line_of e) (lines (printed es)) config h.0.fits
    ∙ ap (read_lines (lines (printed es))) (put_line-printed e config h.0)
    ∙ read_lines-printed es (insert text_discrete e.key e.value config) h.1

-- A file of settings with a key, an equals sign and a value on each line, whatever blanks stand around the two texts, is
-- read as the map into which the settings are put one after the other. A key has no equals sign, a text neither starts nor
-- ends with a blank, no text has a line feed, and a line is shorter than 65536 bytes.
pub read_config_file-printed :
    (es : List Entry) → All IsPrintable es → read_config_file (ok (printed es)) ≡ ok (put_all es [])
unfolding read_config_file
read_config_file-printed es h = read_lines-printed es [] h
