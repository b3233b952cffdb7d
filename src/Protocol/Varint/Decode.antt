-- ===== src/Protocol/Varint/Decode.antt =====
-- read_varint on any input, against a description by arithmetic.
use redoxide.Common.{
  ℕ, zero, suc, ◌+◌, ◌*◌, ◌/◌, ◌%◌, ◌^◌, ◌≤◌, ◌<◌, ◌≡◌, ◌≢◌, ◌∙◌, refl, sym, Bytes, [], ◌∷◌, ◌++◌,
  take, drop, length, take-append-drop, length-take, arith, bit_and, leb, ◌==◌, if◌then◌else◌,
}
use redoxide.Common.Bits.{bit_and-seven_bits, bit_and-top_bit, bit_or_disjoint}
use redoxide.Outcome.{Result, ok, err, unexpected_eof, varint_too_long}
use redoxide.Protocol.Varint.{
  IsI32, add_group, read_varint_loop, read_varint, read_varint_sync_loop, read_varint_sync,
}
use native.Mathlib.Nat.{pow-suc, one-le-pow}
use native.Mathlib.Decide.{ℕ_discrete}
use native.Mathlib.Numerals.{towards_suc}

-- The number of leading bytes whose top bit says that another follows.
unfoldable pub continues : Bytes → ℕ
continues [] = 0
continues (b ∷ bs) = if b / 128 % 2 == 1 then suc (continues bs) else 0

-- The low seven bits of the first `n` bytes, lowest group first.
unfoldable pub groups : ℕ → Bytes → ℕ
groups zero src = 0
groups (suc n) [] = 0
groups (suc n) (b ∷ bs) = b % 128 + 128 * groups n bs

-- What a reader with room for `room` bytes does behind `acc`, the groups read so far; the next one
-- counts `unit`.
abbrev pub decoded : ℕ → ℕ → ℕ → Bytes → Result (ℕ × Bytes)
decoded room unit acc src =
    let n = continues src in
    if leb room n
    then err varint_too_long
    else if leb (length src) n
    then err unexpected_eof
    else ok ((acc + unit * groups (suc n) src) % 2 ^ 32, drop (suc n) src)

shift_seven : (s : ℕ) → 2 ^ (s + 7) ≡ 128 * 2 ^ s
shift_seven s = simp towards_suc (
    omega (
      arith,
      pow-suc 2 s,
      pow-suc 2 (suc s),
      pow-suc 2 (suc (suc s)),
      pow-suc 2 (suc (suc (suc s))),
      pow-suc 2 (suc (suc (suc (suc s)))),
      pow-suc 2 (suc (suc (suc (suc (suc s))))),
      pow-suc 2 (suc (suc (suc (suc (suc (suc s)))))),
    ))

shift_fits : (room shift : ℕ) → shift + 7 * suc (suc room) ≡ 35 → 128 * 2 ^ shift ≤ 2 ^ 28
shift_fits zero shift h = let e : shift ≡ 21 = omega arith in rw e (omega arith)
shift_fits (suc zero) shift h = let e : shift ≡ 14 = omega arith in rw e (omega arith)
shift_fits (suc (suc zero)) shift h = let e : shift ≡ 7 = omega arith in rw e (omega arith)
shift_fits (suc (suc (suc zero))) shift h = let e : shift ≡ 0 = omega arith in rw e (omega arith)
shift_fits (suc (suc (suc (suc room)))) shift h = absurd (omega arith)

group_lt : (g unit : ℕ) → g < 128 → g * unit + unit ≤ 128 * unit
group_lt g unit h = grind arith

-- Below the last of the five shifts the `|` is a plain sum that leaves room for the next group.
pub add_group-eq-add :
    (room shift acc b : ℕ)
    → shift + 7 * suc (suc room) ≡ 35
    → acc < 2 ^ shift
    → (add_group acc b shift ≡ acc + b % 128 * 2 ^ shift)
      × (add_group acc b shift < 2 ^ (shift + 7))
add_group-eq-add room shift acc b h k =
    let fits = shift_fits room shift h in
    let small = group_lt (b % 128) (2 ^ shift) (omega arith) in
    ground (arith, bit_and-seven_bits b, bit_or_disjoint shift acc (b % 128) k, shift_seven shift)

-- At the last shift the three high bits of the group are lost.
add_group_last : (acc b : ℕ) → acc < 2 ^ 28 → add_group acc b 28 ≡ (acc + b % 128 * 2 ^ 28) % 2 ^ 32
add_group_last acc b k =
    let e : bit_and b 0x7f * 2 ^ 28 % 2 ^ 32 ≡ b % 16 * 2 ^ 28 =
      omega (arith, bit_and-seven_bits b) in
    rw e (omega (arith, bit_or_disjoint 28 acc (b % 16) k))

last_round :
    (b : ℕ) (bs : Bytes) (acc : ℕ)
    → acc < 2 ^ 28
    → read_varint_loop acc 28 (b ∷ bs) ≡ decoded 1 (2 ^ 28) acc (b ∷ bs)
unfolding read_varint_loop continues groups
last_round b bs acc k = ground (arith, add_group_last acc b, bit_and-top_bit b)

-- A round with room for another: by the top bit it stops, or goes on with one byte less.
round :
    (b : ℕ) (bs : Bytes) (acc shift : ℕ)
    → shift < 28
    → read_varint_loop acc shift (b ∷ bs) ≡ (
        if b / 128 % 2 == 1
        then read_varint_loop (add_group acc b shift) (shift + 7) bs
        else ok (add_group acc b shift, bs))
unfolding read_varint_loop
round b bs acc shift h = ground (arith, bit_and-top_bit b)

next_unit : (g unit val acc : ℕ) → acc + g * unit + 128 * unit * val ≡ acc + unit * (g + 128 * val)
next_unit g unit val acc = omega arith

decoded-cons :
    (b : ℕ) (bs : Bytes) (room unit acc : ℕ)
    → b / 128 % 2 ≡ 1
    → decoded (suc room) unit acc (b ∷ bs) ≡ decoded room (128 * unit) (acc + b % 128 * unit) bs
unfolding continues groups
decoded-cons b bs room unit acc h =
    ground (arith, next_unit (b % 128) unit (groups (suc (continues bs)) bs) acc)

decoded-cons_last :
    (b : ℕ) (bs : Bytes) (room unit acc : ℕ)
    → b / 128 % 2 ≢ 1
    → acc + b % 128 * unit < 2 ^ 32
    → decoded (suc room) unit acc (b ∷ bs) ≡ ok (acc + b % 128 * unit, bs)
unfolding continues groups
decoded-cons_last b bs room unit acc h k = ground arith

read_varint_loop-decoded :
    (src : Bytes) (room shift acc : ℕ)
    → shift + 7 * suc room ≡ 35
    → acc < 2 ^ shift
    → read_varint_loop acc shift src ≡ decoded (suc room) (2 ^ shift) acc src
read_varint_loop-decoded [] room shift acc h k =
    unfold read_varint_loop continues groups in ground arith
read_varint_loop-decoded (b ∷ bs) zero shift acc h k =
    let e : shift ≡ 28 = omega arith in rw e (last_round b bs acc (rw e at k))
read_varint_loop-decoded (b ∷ bs) (suc room) shift acc h k =
    let (sum, small) = add_group-eq-add room shift acc b h k in
    let fits = shift_fits room shift h in
    let bound = group_lt (b % 128) (2 ^ shift) (omega arith) in
    let ih =
      read_varint_loop-decoded bs room (shift + 7) (add_group acc b shift) (omega arith) small in
    round b bs acc shift (omega arith) ∙ elim (ℕ_discrete (b / 128 % 2) 1) [
      | yes p ↦
          rw (decoded-cons b bs (suc room) (2 ^ shift) acc p) (rw (p, ih, sum, shift_seven shift))
      | no p ↦ rw (decoded-cons_last b bs (suc room) (2 ^ shift) acc p (omega arith)) (ground arith)
    ]

-- On every input `read_varint` answers as the description says.
pub read_varint-decoded : (src : Bytes) → read_varint src ≡ decoded 5 1 0 src
unfolding read_varint
read_varint-decoded src = read_varint_loop-decoded src 4 0 0 (omega arith) (omega arith)

read_varint_sync_loop-eq :
    (src : Bytes) (acc shift : ℕ)
    → read_varint_sync_loop acc shift src ≡ read_varint_loop acc shift src
unfolding read_varint_sync_loop read_varint_loop
read_varint_sync_loop-eq [] acc shift = refl
read_varint_sync_loop-eq (b ∷ bs) acc shift =
    rw (read_varint_sync_loop-eq bs (add_group acc b shift) (shift + 7))

-- The blocking reader and the asynchronous one agree on every input.
pub read_varint_sync-eq : (src : Bytes) → read_varint_sync src ≡ read_varint src
unfolding read_varint_sync read_varint
read_varint_sync-eq src = read_varint_sync_loop-eq src 0 0

groups-lt : (n : ℕ) (src : Bytes) → groups n src < 128 ^ n
unfolding groups
groups-lt zero src = omega arith
groups-lt (suc n) [] = one-le-pow (suc n) 128 (omega arith)
groups-lt (suc n) (b ∷ bs) = omega (arith, groups-lt n bs, pow-suc 128 n)

-- What a successful read took: a number of bytes from one to five, whose groups make the value.
pub record Taken (src : Bytes) (v : ℕ) (rest : Bytes) : Type 0 where
  pub count : ℕ
  pub some_taken : 1 ≤ count
  pub few_taken : count ≤ 5
  pub there : count ≤ length src
  pub left : rest ≡ drop count src
  pub value : v ≡ groups count src % 2 ^ 32
  pub below : groups count src < 128 ^ count

decoded-Taken :
    (src : Bytes) {v : ℕ} {rest : Bytes} → decoded 5 1 0 src ≡ ok (v, rest) → Taken src v rest
decoded-Taken src h = record {
  count = suc (continues src);
  some_taken = ground arith;
  few_taken = ground arith;
  there = ground arith;
  left = ground arith;
  value = ground arith;
  below = groups-lt (suc (continues src)) src;
}

pub read_varint-Taken :
    (src : Bytes) {v : ℕ} {rest : Bytes} → read_varint src ≡ ok (v, rest) → Taken src v rest
read_varint-Taken src h = decoded-Taken src (sym (read_varint-decoded src) ∙ h)

Taken-split :
    (src : Bytes) {v : ℕ} {rest : Bytes}
    → Taken src v rest
    → (front : Bytes) × IsI32 v × (src ≡ front ++ rest) × (1 ≤ length front) × (length front ≤ 5)
Taken-split src t = (
  take t.count src,
  rw t.value (omega arith),
  rw t.left (sym (take-append-drop t.count src)),
  rw length-take (omega (arith, t.some_taken, t.there)),
  rw length-take (omega (arith, t.few_taken)),
)

-- A successful read returns an i32, and splits the input into the one to five bytes that it took
-- and the rest.
pub read_varint_bounds :
    (src : Bytes) (v : ℕ) (rest : Bytes)
    → read_varint src ≡ ok (v, rest)
    → (front : Bytes) × IsI32 v × (src ≡ front ++ rest) × (1 ≤ length front) × (length front ≤ 5)
read_varint_bounds src v rest h = Taken-split src (read_varint-Taken src h)

pub read_varint_sync-IsI32 :
    (src : Bytes) (v : ℕ) (rest : Bytes) → read_varint_sync src ≡ ok (v, rest) → IsI32 v
read_varint_sync-IsI32 src v rest h =
    (Taken-split src (read_varint-Taken src (sym (read_varint_sync-eq src) ∙ h))).1
