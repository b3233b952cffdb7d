-- ===== src/Proxy/Probe/Target.antt =====
-- The text of the target that main.rs and proxy.rs hand to a probe, and what the probe reads from it.
use redoxide.Common.{
  ℕ, zero, suc, ◌+◌, ◌-◌, ◌*◌, ◌/◌, ◌%◌, ◌^◌, ◌≤◌, All, All-append, ◌<◌, ◌≡◌, ◌≢◌, refl, ap, ◌∙◌,
  false, Bytes, [], ◌∷◌, ◌++◌, none, some, ltb, ◌==◌, Bool-cases, inl, inr, if◌then◌else◌, arith,
}
use redoxide.Config.{TargetConfig}
use redoxide.Config.Text.{digits_value, up_to, parse_u16}
use redoxide.Proxy.Probe.{split, onto_part, host_of, port_of, probe_host, probe_port}

-- The decimal digits of a number below 10 ^ fuel.
unfoldable pub decimal : ℕ → ℕ → Bytes
decimal zero n = []
decimal (suc fuel) n =
    let rest = decimal fuel (n / 10) in
    if ltb n 10 then (48 + n) ∷ [] else rest ++ ((48 + n % 10) ∷ [])

-- `format!("{}:{}", target.host, target.port)`
unfoldable pub target_of : TargetConfig → Bytes
unfolding decimal
target_of t = t.host ++ (b':' ∷ decimal 5 t.port)

abbrev pub HasNoColon : Bytes → Type 0
HasNoColon = All (λ c. c ≢ 58)

abbrev AreDigits : Bytes → Type 0
AreDigits = All (λ c. (48 ≤ c) × (c ≤ 57))

decimal-AreDigits : (fuel n : ℕ) → AreDigits (decimal fuel n)
unfolding decimal
decimal-AreDigits zero n = tt
decimal-AreDigits (suc fuel) n = elim (Bool-cases (ltb n 10)) [
  | inl small ↦ rw small (ground (arith, small))
  | inr large ↦ rw large (
      All-append _ (decimal fuel (n / 10)) _ (decimal-AreDigits fuel (n / 10))
        ((omega arith, omega arith), tt))
]

digits_value-append :
    (acc : ℕ) (s : Bytes) (d v : ℕ)
    → AreDigits s
    → digits_value acc s ≡ some v
    → 48 ≤ d
    → d ≤ 57
    → digits_value acc (s ++ (d ∷ [])) ≡ some (v * 10 + (d - 48))
unfolding digits_value
digits_value-append acc [] d v a h l u = ground arith
digits_value-append acc (c ∷ cs) d v ((x, y), a) h l u =
    let tail = digits_value-append (acc * 10 + (c - 48)) cs d v a (ground (arith, h, x, y)) l u in
    ground (arith, tail, x, y)

digits_value-decimal : (fuel n : ℕ) → n < 10 ^ fuel → digits_value 0 (decimal fuel n) ≡ some n
unfolding decimal digits_value
digits_value-decimal zero n l = ap some (omega (arith, l))
digits_value-decimal (suc fuel) n l = elim (Bool-cases (ltb n 10)) [
  | inl small ↦ rw small (ground (arith, small))
  | inr large ↦
      let shorter : n / 10 < 10 ^ fuel = omega (arith, l) in
      let whole : n / 10 * 10 + (48 + n % 10 - 48) ≡ n = omega arith in
      rw large (
        digits_value-append 0 (decimal fuel (n / 10)) (48 + n % 10) (n / 10)
          (decimal-AreDigits fuel (n / 10)) (digits_value-decimal fuel (n / 10) shorter)
          (omega arith) (omega arith)
        ∙ ap some whole)
]

parse_u16-digits :
    (s : Bytes) (n : ℕ)
    → AreDigits s
    → digits_value 0 s ≡ some n
    → s ≢ []
    → n ≤ 65535
    → parse_u16 s ≡ some n
unfolding parse_u16 up_to
parse_u16-digits [] n a h e l = absurd (e refl)
parse_u16-digits (c ∷ cs) n ((x, y), a) h e l =
    let no_plus : (c == 43) ≡ false = ground arith in ground (arith, no_plus, h)

split-plain : (s : Bytes) → HasNoColon s → split 58 s ≡ s ∷ []
unfolding split onto_part
split-plain [] h = refl
split-plain (c ∷ cs) (x, h) =
    let other : (c == 58) ≡ false = ground arith in rw (other, split-plain cs h) refl

split-colon : (s p : Bytes) → HasNoColon s → split 58 (s ++ (58 ∷ p)) ≡ s ∷ split 58 p
unfolding split onto_part
split-colon [] p h = refl
split-colon (c ∷ cs) p (x, h) =
    let other : (c == 58) ≡ false = ground arith in rw (other, split-colon cs p h) refl

AreDigits-HasNoColon : (s : Bytes) → AreDigits s → HasNoColon s
AreDigits-HasNoColon [] h = tt
AreDigits-HasNoColon (c ∷ cs) ((x, y), h) = (λ e. omega (arith, e, y), AreDigits-HasNoColon cs h)

append-nonempty : (s : Bytes) (d : ℕ) → s ++ (d ∷ []) ≢ []
append-nonempty [] d h = cc
append-nonempty (c ∷ cs) d h = cc

decimal-nonempty : (fuel n : ℕ) → decimal (suc fuel) n ≢ []
unfolding decimal
decimal-nonempty fuel n h = elim (Bool-cases (ltb n 10)) [
  | inl small ↦ let e = rw small at h in cc
  | inr large ↦ append-nonempty (decimal fuel (n / 10)) (48 + n % 10) (rw large at h)
]

port_of-digits : (host p : Bytes) (n : ℕ) → parse_u16 p ≡ some n → port_of (host ∷ p ∷ []) ≡ n
unfolding port_of
port_of-digits host p n h = ap (λ o. elim o [ none ↦ 25565 | some m ↦ m ]) h

-- A probe of the configured target takes from its text the configured host, if that has no colon in
-- it, and the configured port.
pub target_of-read_back :
    (t : TargetConfig)
    → HasNoColon t.host
    → t.port < 2 ^ 16
    → (probe_host (target_of t) ≡ t.host) × (probe_port (target_of t) ≡ t.port)
unfolding target_of probe_host probe_port host_of port_of
target_of-read_back t h l =
    let digits = decimal-AreDigits 5 t.port in
    let parts =
      split-colon t.host (decimal 5 t.port) h
      ∙ ap (◌∷◌ t.host) (split-plain (decimal 5 t.port) (AreDigits-HasNoColon _ digits)) in
    let port =
      parse_u16-digits (decimal 5 t.port) t.port digits
        (digits_value-decimal 5 t.port (omega (arith, l))) (decimal-nonempty 4 t.port)
        (omega (arith, l)) in
    (rw parts refl, rw parts (port_of-digits t.host (decimal 5 t.port) t.port port))
