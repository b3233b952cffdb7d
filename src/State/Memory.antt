-- ===== src/State/Memory.antt =====
-- The detected version over a restart of the proxy.
use redoxide.Common.{
  ℕ, ◌≡◌, refl, ◌∙◌, ap, Bool, true, false, Bytes, [], ◌∷◌, Option, none, some, arith, ◌&&◌, ◌==◌,
  Bool-cases, inl, inr,
}
use redoxide.Config.Text.{same_text}
use redoxide.State.{SharedState, new, update_version_info, known, protocol_version, version_name}
use redoxide.VersionCache
use mathlib.Core.Option.{get_or}
use redoxide.VersionCache.{VersionCache, CacheFormat, CacheDir}

same_text-eq : (a b : Bytes) → same_text a b ≡ true → a ≡ b
unfolding same_text
same_text-eq [] [] h = refl
same_text-eq [] (y ∷ ys) h = cc
same_text-eq (x ∷ xs) [] h = cc
same_text-eq (x ∷ xs) (y ∷ ys) h = ground (arith, same_text-eq xs ys)

-- A proxy that starts with the file of `s` shows the version that `s` shows.
abbrev pub Remembers : CacheFormat → SharedState → Type 0
Remembers format s =
    (protocol_version (new format s.config s.cache_file) ≡ protocol_version s)
    × (version_name (new format s.config s.cache_file) ≡ version_name s)

known_parts :
    (b : Bool) (d : Option Bytes) (version : Bytes)
    → b && elim d [ none ↦ false | some v ↦ same_text v version ] ≡ true
    → (b ≡ true) × (d ≡ some version)
known_parts b none version h = ground arith
known_parts true (some v) version h = (refl, ap some (same_text-eq v version h))
known_parts false (some v) version h = cc

-- What is known already is what the state holds.
known-eq :
    (protocol : ℕ) (version : Bytes) (s : SharedState)
    → known protocol version s ≡ true
    → (s.detected_protocol ≡ protocol) × (s.detected_version ≡ some version)
unfolding known
known-eq protocol version s h =
    let (p, v) = known_parts (s.detected_protocol == protocol) s.detected_version version h in
    (ground arith, v)

-- A version that is detected, whether it is known already or not, is the one that the proxy shows
-- and that it shows after a restart, if that was so before, the file can be written, and the JSON
-- library reads back what it prints for this version.
pub update_version_info-Remembers :
    (format : CacheFormat) (dir : CacheDir) (protocol : ℕ) (version json : Bytes) (s : SharedState)
    → dir.creates_dir ≡ true
    → dir.writes ≡ true
    → format.to_string_pretty (record { protocol = protocol; version = version }) ≡ some json
    → format.from_str json ≡ some (record { protocol = protocol; version = version })
    → Remembers format s
    → Remembers format (update_version_info format dir protocol version s)
      × (protocol_version (update_version_info format dir protocol version s) ≡ protocol)
      × (version_name (update_version_info format dir protocol version s) ≡ version)
unfolding update_version_info new protocol_version version_name VersionCache.load VersionCache.save
update_version_info-Remembers format dir protocol version json s c w printed parsed (rp, rv) =
    elim (Bool-cases (known protocol version s)) [
      | inl y ↦
          let (p, v) = known-eq protocol version s y in
          rw y ((rp ∙ p, rv ∙ ap (λ d. get_or d s.config.status.version_name) v), refl, refl)
      | inr n ↦ rw (n, c, printed, w, parsed) ((refl, refl), refl, refl)
    ]
