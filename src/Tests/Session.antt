-- ===== src/Tests/Session.antt =====
-- Examples for the status exchange of src/proxy.rs.
use redoxide.Common.{Bytes, [], ◌∷◌}

abbrev payload : Bytes
payload = 3 ∷ 4 ∷ []
