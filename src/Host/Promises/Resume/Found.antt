-- ===== src/Host/Promises/Resume/Found.antt =====
-- mod.rs: a yield that promise_yield_create made is found again, in its process and in another one.
use near_mock.Base.{◌<◌, ◌≡◌, false, [], ◌∷◌, Bytes, ◌==◌}
use near_mock.Base.{ℕ_eq, bytes_Key}

-- Text in ASCII without the separator.
abbrev pub IsPlain : Bytes → Type 0
IsPlain [] = Unit
IsPlain (b ∷ bs) = (b < 128) × ((b == 31) ≡ false) × IsPlain bs
