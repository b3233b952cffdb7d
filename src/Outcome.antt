-- ===== src/Outcome.antt =====
-- Results of fallible code. `anyhow::Result` carries a message; here each `bail!`, `ensure!` and
-- failing call of the sources has a constructor of its own.
use redoxide.Common.{
  ℕ, ◌≤◌, ◌≡◌, refl, Bool, true, false, Bytes, ◌++◌, length, take, drop, length-append, take-append,
  drop-append, leb, if◌then◌else◌, arith,
}

pub data Error : Type 0 where
  -- `read_exact` or `read_u8` met the end of the input
  unexpected_eof : Error
  varint_too_long : Error
  negative_packet_length packet_too_long : Error
  negative_string_length string_too_long invalid_utf8 : Error
  negative_rcon_length rcon_too_long rcon_auth_failed : Error
  connection_failed write_failed copy_failed docker_failed : Error
  unknown_next_state unexpected_packet : Error
  start_failed startup_timeout channel_closed : Error
  client_disconnected no_answer : Error
  invalid_config bind_failed accept_failed : Error

-- `panic` is a Rust panic: no caller handles it.
pub data Result {ℓ} (A : Type ℓ) : Type ℓ where
  ok : A → Result A
  err : Error → Result A
  panic : Result A

-- A read takes the bytes ahead, and on success returns those that it left.
abbrev pub Reader : Type 0 → Type 0
Reader A = Bytes → Result (A × Bytes)

abbrev pub bind : {A B : Type 0} → Result (A × Bytes) → (A → Reader B) → Result (B × Bytes)
bind (ok (a, s)) f = f a s
bind (err e) f = err e
bind panic f = panic

infixl 5 ◌>>=◌ ◌>>◌
abbrev pub ◌>>=◌ : {A B : Type 0} → Reader A → (A → Reader B) → Reader B
◌>>=◌ m f s = bind (m s) f

abbrev pub ◌>>◌ : {B : Type 0} → Reader (Unit {0}) → Reader B → Reader B
m >> k = m >>= λ _. k

abbrev pub return : {A : Type 0} → A → Reader A
return a s = ok (a, s)

-- `anyhow::ensure!`
abbrev pub ensure : Bool → Error → Reader (Unit {0})
ensure true e s = ok (tt, s)
ensure false e s = err e

-- `read_exact` into a buffer of `n` bytes.
abbrev pub read_exact : ℕ → Reader Bytes
read_exact n s = if leb n (length s) then ok (take n s, drop n s) else err unexpected_eof

abbrev resume : {A : Type 0} → Result A → Reader A
resume (ok a) s = ok (a, s)
resume (err e) s = err e
resume panic s = panic

-- A read through a cursor over `buf`, in the course of another read: it returns what is left of
-- `buf` too, and leaves the outer input alone.
abbrev pub on_cursor : {A : Type 0} → Bytes → Reader A → Reader (A × Bytes)
on_cursor buf r s = resume (r buf) s

-- The value of a read over a whole buffer, whatever it leaves.
abbrev pub value_of : {A : Type 0} → Result (A × Bytes) → Result A
value_of (ok (a, s)) = ok a
value_of (err e) = err e
value_of panic = panic

-- Inversion of successful steps.
pub bind-eq-ok :
    {A B : Type 0} (r : Result (A × Bytes)) (f : A → Reader B) {b : B × Bytes}
    → bind r f ≡ ok b
    → (a : A) × (s : Bytes) × (r ≡ ok (a, s)) × (f a s ≡ ok b)
bind-eq-ok (ok (a, s)) f h = (a, s, refl, h)
bind-eq-ok (err e) f h = cc
bind-eq-ok panic f h = cc

pub on_cursor-eq-ok :
    {A : Type 0} (buf : Bytes) (r : Reader A) (s : Bytes) {p : A × Bytes} {s' : Bytes}
    → on_cursor buf r s ≡ ok (p, s')
    → (r buf ≡ ok p) × (s' ≡ s)
on_cursor-eq-ok {A} buf r s {p} {s'} h = split (r buf) h
  where
    split : (x : Result (A × Bytes)) → resume x s ≡ ok (p, s') → (x ≡ ok p) × (s' ≡ s)
    split (ok q) e = (cc, cc)
    split (err x) e = cc
    split panic e = cc

pub ensure-eq-ok :
    (b : Bool) (e : Error) (s : Bytes) {u : Unit {0}} {s' : Bytes}
    → ensure b e s ≡ ok (u, s')
    → (b ≡ true) × (s' ≡ s)
ensure-eq-ok true e s h = (refl, cc)
ensure-eq-ok false e s h = cc

pub read_exact-eq-ok :
    (n : ℕ) (s : Bytes) {buf s' : Bytes}
    → read_exact n s ≡ ok (buf, s')
    → (n ≤ length s) × (buf ≡ take n s) × (s' ≡ drop n s)
read_exact-eq-ok n s h = ground arith

pub read_exact-append :
    (front rest : Bytes) → read_exact (length front) (front ++ rest) ≡ ok (front, rest)
read_exact-append front rest =
    ground (arith, length-append front rest, take-append front rest, drop-append front rest)
