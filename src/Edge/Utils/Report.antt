-- ===== src/Edge/Utils/Report.antt =====
-- PrintCustomMap of edge/utils/utils.go. The list of entries is in the order in which `range` meets them.
use sdcc_project.Base.{
  ℕ, zero, suc, ◌+◌, ◌/◌, ◌%◌, ◌≡◌, refl, ◌∙◌, ap, sym, Bool, true, false, List, [], ◌∷◌, ◌++◌, map,
  ltb, ◌==◌, if◌then◌else◌, length, arith, ◌<◌,
}
use mathlib.Core.List.{append_assoc, append-nil}
use sdcc_project.Base.Int.{ℤ, pos, negsuc}
use sdcc_project.Edge.Utils.Text.{Text}

-- `fmt.Sprint` of an integer. A number has at most as many digits as it is large.
unfoldable pub digits : ℕ → ℕ → Text
digits zero n = []
digits (suc rounds) n =
    let rest = digits rounds (n / 10) in
    if ltb n 10 then (b'0' + n) ∷ [] else rest ++ ((b'0' + n % 10) ∷ [])

unfoldable pub sprint : ℤ → Text
unfolding digits
sprint (pos n) = digits (suc n) n
sprint (negsuc n) = b'-' ∷ digits (suc (suc n)) (suc n)

abbrev pub bullet : Text
bullet = b'[' ∷ b'*' ∷ b']' ∷ b' ' ∷ []

abbrev pub line_end : Text
line_end = b'\r' ∷ b'\n' ∷ []

-- What the loop writes for an entry.
unfoldable pub item_text : Bool → Text × ℤ → Text
unfolding sprint
item_text has_value (item, value) =
    if has_value then bullet ++ (item ++ (b' ' ∷ b':' ∷ b' ' ∷ sprint value)) else bullet ++ item

-- The loop; `current_items_num` counts the entries.
unfoldable pub list_items : Bool → ℕ → ℕ → List (Text × ℤ) → Text → Text
unfolding item_text
list_items has_value how_many current_items_num [] list_string = list_string
list_items has_value how_many current_items_num (entry ∷ rest) list_string =
    let list_string' = list_string ++ item_text has_value entry in
    let current_items_num' = suc current_items_num in
    list_items has_value how_many current_items_num' rest
      (if ltb current_items_num' how_many then list_string' ++ line_end else list_string')

-- `PrintCustomMap`: the text that is printed.
unfoldable pub print_custom_map : List (Text × ℤ) → Text → Text → Bool → Text
unfolding list_items
print_custom_map custom_map if_empty if_not_empty has_value =
    if length custom_map == 0
    then if_empty
    else list_items has_value (length custom_map) 0 custom_map
        (if_not_empty ++ (b':' ∷ b'\r' ∷ b'\n' ∷ []))

-- Texts with a separator between them, and none behind the last.
abbrev pub join : Text → List Text → Text
join sep [] = []
join sep (t ∷ []) = t
join sep (t ∷ u ∷ ts) = t ++ (sep ++ join sep (u ∷ ts))

list_items-join :
    (has_value : Bool) (how_many i : ℕ) (entries : List (Text × ℤ)) (s : Text)
    → i + length entries ≡ how_many
    → list_items has_value how_many i entries s
      ≡ s ++ join line_end (map (item_text has_value) entries)
unfolding list_items
list_items-join has_value how_many i [] s h = sym (append-nil s)
list_items-join has_value how_many i (e ∷ []) s h =
    let done : ltb (suc i) how_many ≡ false = ground arith in rw done refl
list_items-join has_value how_many i (e ∷ e' ∷ rest) s h =
    let more : ltb (suc i) how_many ≡ true = ground arith in
    let item = item_text has_value e in
    let items = join line_end (map (item_text has_value) (e' ∷ rest)) in
    rw more (
      list_items-join has_value how_many (suc i) (e' ∷ rest) (s ++ item ++ line_end) (omega arith)
      ∙ append_assoc (s ++ item) line_end items
      ∙ append_assoc s item (line_end ++ items))

-- For a map with an entry the text is the title, a colon and a line end, then the entries' texts joined by line ends,
-- whatever the order; for a map with none it is the text given for that case.
pub print_custom_map-join :
    (custom_map : List (Text × ℤ)) (if_empty if_not_empty : Text) (has_value : Bool)
    → ((custom_map ≡ []) → print_custom_map custom_map if_empty if_not_empty has_value ≡ if_empty)
      × ((0 < length custom_map)
          → print_custom_map custom_map if_empty if_not_empty has_value
            ≡ (if_not_empty ++ (b':' ∷ line_end))
              ++ join line_end (map (item_text has_value) custom_map))
unfolding print_custom_map
print_custom_map-join [] if_empty if_not_empty has_value = (λ e. refl, λ h. absurd (omega arith))
print_custom_map-join (e ∷ rest) if_empty if_not_empty has_value = (
  λ k. absurd (ground (arith, ap length k)),
  λ h.
      let nonempty : (suc (length rest) == 0) ≡ false = ground arith in
      rw nonempty (
        list_items-join has_value (suc (length rest)) 0 (e ∷ rest)
          (if_not_empty ++ (b':' ∷ b'\r' ∷ b'\n' ∷ [])) (omega arith)),
)
