-- ===== src/Config/Text.antt =====
-- What config.rs uses of the standard library's strings, on the UTF-8 bytes of a text.
use redoxide.Common.{
  ℕ, zero, suc, ◌+◌, ◌-◌, ◌*◌, ◌^◌, Bool, true, false, ◌&&◌, ◌||◌, Bytes, List, [], ◌∷◌, Option,
  none, some, leb, ◌==◌, if◌then◌else◌,
}
use mathlib.Core.List.{reverse, flatten}

abbrev pub starts_with : ℕ → Bytes → Bool
starts_with c [] = false
starts_with c (x ∷ xs) = x == c

unfoldable pub same_text : Bytes → Bytes → Bool
same_text [] [] = true
same_text (x ∷ xs) (y ∷ ys) = x == y && same_text xs ys
same_text _ _ = false

-- A text cut into its characters: a continuation byte belongs to the byte before it.
attach : ℕ → List Bytes → List Bytes
attach b [] = (b ∷ []) ∷ []
attach b ([] ∷ cs) = (b ∷ []) ∷ cs
attach b ((x ∷ xs) ∷ cs) =
    if leb 0x80 x && leb x 0xbf then (b ∷ x ∷ xs) ∷ cs else (b ∷ []) ∷ (x ∷ xs) ∷ cs

chars : Bytes → List Bytes
unfolding attach
chars [] = []
chars (b ∷ bs) = attach b (chars bs)

-- `char::is_whitespace`: the characters of Unicode's White_Space, by their bytes.
is_whitespace : Bytes → Bool
is_whitespace (a ∷ []) = (leb 9 a && leb a 13) || a == 32
is_whitespace (a ∷ b ∷ []) = a == 0xc2 && (b == 0x85 || b == 0xa0)
is_whitespace (a ∷ b ∷ c ∷ []) =
    (a == 0xe1 && b == 0x9a && c == 0x80)
    || (a == 0xe2
        && b == 0x80
        && ((leb 0x80 c && leb c 0x8a) || c == 0xa8 || c == 0xa9 || c == 0xaf))
    || (a == 0xe2 && b == 0x81 && c == 0x9f)
    || (a == 0xe3 && b == 0x80 && c == 0x80)
is_whitespace _ = false

skip_whitespace : List Bytes → List Bytes
unfolding is_whitespace
skip_whitespace [] = []
skip_whitespace (c ∷ cs) = if is_whitespace c then skip_whitespace cs else c ∷ cs

-- `str::trim`
unfoldable pub trim : Bytes → Bytes
unfolding chars skip_whitespace
trim s = flatten (reverse (skip_whitespace (reverse (skip_whitespace (chars s)))))

-- `str::lines`: a line ends at a line feed, with a carriage return before it or not; nothing
-- behind the last line feed is no line.
onto_line : ℕ → List Bytes → List Bytes
onto_line c [] = (c ∷ []) ∷ []
onto_line c (l ∷ ls) = (c ∷ l) ∷ ls

unfoldable pub lines : Bytes → List Bytes
unfolding onto_line
lines [] = []
lines (c ∷ cs) =
    let rest = lines cs in
    if c == 10 then [] ∷ rest else if c == 13 && starts_with 10 cs then rest else onto_line c rest

-- `str::split_once('=')`
unfoldable pub split_once : ℕ → Bytes → Option (Bytes × Bytes)
split_once sep [] = none
split_once sep (c ∷ cs) =
    let rest = split_once sep cs in
    if c == sep
    then some ([], cs)
    else elim rest [ none ↦ none | some (key, value) ↦ some (c ∷ key, value) ]

-- The number that decimal digits make behind `acc`; anything else is no number.
unfoldable pub digits_value : ℕ → Bytes → Option ℕ
digits_value acc [] = some acc
digits_value acc (c ∷ cs) =
    let rest = digits_value (acc * 10 + (c - 48)) cs in if leb 48 c && leb c 57 then rest else none

-- At least one digit, and a value of at most `max`.
unfoldable pub up_to : ℕ → Bytes → Option ℕ
unfolding digits_value
up_to max [] = none
up_to max (c ∷ cs) = elim (digits_value 0 (c ∷ cs)) [
  | none ↦ none
  | some n ↦ if leb n max then some n else none
]

-- `str::parse::<u16>`
unfoldable pub parse_u16 : Bytes → Option ℕ
unfolding up_to
parse_u16 [] = none
parse_u16 (c ∷ cs) = if c == b'+' then up_to 65535 cs else up_to 65535 (c ∷ cs)

-- The bit pattern of -n.
negated : Option ℕ → Option ℕ
negated none = none
negated (some zero) = some 0
negated (some (suc n)) = some (2 ^ 32 - suc n)

-- `str::parse::<i32>`, to the bit pattern
unfoldable pub parse_i32 : Bytes → Option ℕ
unfolding up_to negated
parse_i32 [] = none
parse_i32 (c ∷ cs) =
    if c == b'+'
    then up_to (2 ^ 31 - 1) cs
    else if c == b'-'
    then negated (up_to (2 ^ 31) cs)
    else up_to (2 ^ 31 - 1) (c ∷ cs)
