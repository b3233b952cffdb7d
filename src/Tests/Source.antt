-- ===== src/Tests/Source.antt =====
-- The unit tests of the sources, as tests of the definitions that model the code. A test is true
-- where its assertions hold; an `unwrap` of an error makes it false.
mod Varint
mod Packet
mod Handshake
mod Status
mod Config
mod Docker
mod State
mod Proxy
use redoxide.Common.{ℕ, Bool, true, false, ◌&&◌, Bytes, List, [], ◌∷◌}
use redoxide.Config.Text.{same_text}
use redoxide.Outcome.{Result, ok, err, panic}

abbrev pub unwrap : {A : Type 0} → Result A → (A → Bool) → Bool
unwrap (ok a) k = k a
unwrap (err e) k = false
unwrap panic k = false

abbrev pub is_err : {A : Type 0} → Result A → Bool
is_err (ok a) = false
is_err (err e) = true
is_err panic = false

abbrev pub all {ℓ} : {A : Type ℓ} → (A → Bool) → List A → Bool
all f [] = true
all f (x ∷ xs) = f x && all f xs
