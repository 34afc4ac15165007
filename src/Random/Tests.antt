-- ===== src/Random/Tests.antt =====
-- Runs of `rrand` (src/lib/random.c) and of `mk_key` (src/lib/61-06.c).
use tlpiexer.Prelude.{ℕ, ◌≡◌, some, length}
use tlpiexer.CText.{Bytes}
use tlpiexer.Random.{mk_key}
use tlpiexer.Random.Range.{KeyBytes, mk_key-bytes}

abbrev counting : ℕ → ℕ
counting i = i

mk_key-bytes_example :
    (key : Bytes) × (mk_key counting ≡ some key) × (length key ≡ 16) × KeyBytes key
mk_key-bytes_example = mk_key-bytes counting
