-- ===== src/Common/Utf8.antt =====
-- The validation of `String::from_utf8`: the well-formed byte sequences of the Unicode standard.
use mathlib.Core.Bool.{Bool, true, false, ◌&&◌}
use mathlib.Core.List.{[], ◌∷◌, ◌++◌, append_assoc}
use mathlib.Core.Path.{◌≡◌, refl, sym, ap, ◌∙◌}
use mathlib.Core.Logic.{inl, inr}
use Prim.Native.Nat.{ℕ, zero, suc}
use redoxide.Common.Tests.{leb, ltb, ◌==◌, if◌then◌else◌, Bool-cases}
use redoxide.Common.Lists.{Bytes}

abbrev within : ℕ → ℕ → ℕ → Bool
within lo hi c = leb lo c && leb c hi

-- What may follow the bytes read so far: any character, or `count` more continuation bytes behind
-- one that lies from `lo` to `hi`.
pub data Expect : Type 0 where
  char : Expect
  cont : (count lo hi : ℕ) → Expect
  bad : Expect

lead : ℕ → Expect
lead b =
    if ltb b 0x80
    then char
    else if within 0xc2 0xdf b
    then cont 0 0x80 0xbf
    else if b == 0xe0
    then cont 1 0xa0 0xbf
    else if b == 0xed
    then cont 1 0x80 0x9f
    else if within 0xe1 0xef b
    then cont 1 0x80 0xbf
    else if b == 0xf0
    then cont 2 0x90 0xbf
    else if within 0xf1 0xf3 b
    then cont 2 0x80 0xbf
    else if b == 0xf4
    then cont 2 0x80 0x8f
    else bad

after : ℕ → Expect
after zero = char
after (suc n) = cont n 0x80 0xbf

next : Expect → ℕ → Expect
unfolding lead after
next char b = lead b
next (cont n lo hi) b = if within lo hi b then after n else bad
next bad b = bad

valid_from : Expect → Bytes → Bool
unfolding next
valid_from char [] = true
valid_from (cont n lo hi) [] = false
valid_from bad [] = false
valid_from e (b ∷ bs) = valid_from (next e b) bs

unfoldable pub is_utf8 : Bytes → Bool
unfolding valid_from
is_utf8 = valid_from char

valid_from-append :
    (e : Expect) (xs ys : Bytes)
    → valid_from e xs ≡ true
    → valid_from e (xs ++ ys) ≡ valid_from char ys
unfolding valid_from
valid_from-append char [] ys h = refl
valid_from-append (cont n lo hi) [] ys h = cc
valid_from-append bad [] ys h = cc
valid_from-append e (b ∷ xs) ys h = valid_from-append (next e b) xs ys h

-- Valid text stays valid when valid text is added behind it.
pub is_utf8-append : (xs ys : Bytes) → is_utf8 xs ≡ true → is_utf8 (xs ++ ys) ≡ is_utf8 ys
unfolding is_utf8
is_utf8-append xs ys h = valid_from-append char xs ys h

-- `String::from_utf8_lossy`: each maximal part of a broken sequence becomes U+FFFD.
abbrev replacement : Bytes
replacement = 0xef ∷ 0xbf ∷ 0xbd ∷ []

-- What is put out at a byte, the state behind it, and the bytes of a character that is not whole.
record Turn : Type 0 where
  out : Bytes
  state : Expect
  held : Bytes

begin : Expect → ℕ → Turn
begin char b = record { out = b ∷ []; state = char; held = [] }
begin (cont n lo hi) b = record { out = []; state = cont n lo hi; held = b ∷ [] }
begin bad b = record { out = replacement; state = char; held = [] }

continue : Expect → Bytes → Turn
continue char held = record { out = held; state = char; held = [] }
continue e held = record { out = []; state = e; held = held }

turn : Expect → Bytes → ℕ → Turn
unfolding begin continue lead after
turn (cont n lo hi) held b =
    if within lo hi b
    then continue (after n) (held ++ (b ∷ []))
    else let t = begin (lead b) b in record t { out = replacement ++ t.out }
turn _ held b = begin (lead b) b

lossy_from : Expect → Bytes → Bytes → Bytes
unfolding turn
lossy_from char held [] = []
lossy_from e held [] = replacement
lossy_from e held (b ∷ bs) = let t = turn e held b in t.out ++ lossy_from t.state t.held bs

unfoldable pub from_utf8_lossy : Bytes → Bytes
unfolding lossy_from
from_utf8_lossy s = lossy_from char [] s

abbrev Fits : Expect → Bytes → Type 0
Fits char held = held ≡ []
Fits _ held = Unit

valid_from-bad : (s : Bytes) → valid_from bad s ≡ false
unfolding valid_from
valid_from-bad [] = refl
valid_from-bad (b ∷ bs) = valid_from-bad bs

-- The claim of `lossy_from_valid` for the bytes behind the first.
abbrev Onward : Bytes → Type 0
Onward bs =
    (e : Expect) (held : Bytes)
    → Fits e held
    → valid_from e bs ≡ true
    → lossy_from e held bs ≡ held ++ bs

begin-Onward :
    (e : Expect) (b : ℕ) (bs : Bytes)
    → Onward bs
    → valid_from e bs ≡ true
    → (begin e b).out ++ lossy_from (begin e b).state (begin e b).held bs ≡ b ∷ bs
unfolding begin
begin-Onward char b bs ih h = ap (◌∷◌ b) (ih char [] refl h)
begin-Onward (cont n lo hi) b bs ih h = ih (cont n lo hi) (b ∷ []) tt h
begin-Onward bad b bs ih h = cc (valid_from-bad bs)

continue-Onward :
    (n : ℕ) (held bs : Bytes)
    → Onward bs
    → valid_from (after n) bs ≡ true
    → (continue (after n) held).out
        ++ lossy_from (continue (after n) held).state (continue (after n) held).held bs
      ≡ held ++ bs
unfolding continue after
continue-Onward zero held bs ih h = ap (◌++◌ held) (ih char [] refl h)
continue-Onward (suc n) held bs ih h = ih (cont n 0x80 0xbf) held tt h

lossy_from_valid : (bs : Bytes) → Onward bs
unfolding valid_from lossy_from
lossy_from_valid [] char held fit h = sym (rw fit refl)
lossy_from_valid [] (cont n lo hi) held fit h = cc
lossy_from_valid [] bad held fit h = cc
lossy_from_valid (b ∷ bs) char held fit h =
    rw fit (begin-Onward (lead b) b bs (lossy_from_valid bs) h)
lossy_from_valid (b ∷ bs) (cont n lo hi) held fit h = elim (Bool-cases (within lo hi b)) [
  | inl w ↦ rw w (
      continue-Onward n (held ++ (b ∷ [])) bs (lossy_from_valid bs) (rw w at h)
      ∙ append_assoc held (b ∷ []) bs)
  | inr w ↦ cc (valid_from-bad bs, rw w at h)
]
lossy_from_valid (b ∷ bs) bad held fit h = cc (valid_from-bad bs)

-- Valid text is put out unchanged.
pub from_utf8_lossy_valid : (s : Bytes) → is_utf8 s ≡ true → from_utf8_lossy s ≡ s
unfolding from_utf8_lossy is_utf8
from_utf8_lossy_valid s h = lossy_from_valid s char [] refl h
