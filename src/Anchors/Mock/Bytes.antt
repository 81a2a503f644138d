-- ===== src/Anchors/Mock/Bytes.antt =====
-- mod.rs, module `tests`: accounts as bytes.
use substrate_scaffold.Prelude.{ℕ, ◌+◌, ◌*◌, ◌^◌, ◌<◌, ◌≡◌, sym, ap, ◌∙◌, List, [], ◌∷◌, arith}
use substrate_scaffold.Anchors.Mock.{to_be_bytes}

-- `u64::from_be_bytes`
abbrev pub from_be_bytes_after : ℕ → List ℕ → ℕ
from_be_bytes_after acc [] = acc
from_be_bytes_after acc (b ∷ bs) = from_be_bytes_after (acc * 256 + b) bs

abbrev pub from_be_bytes : List ℕ → ℕ
from_be_bytes bs = from_be_bytes_after 0 bs

-- A `u64` is read back from its bytes.
pub from_be_bytes-to_be_bytes : (n : ℕ) → n < 2 ^ 64 → from_be_bytes (to_be_bytes n) ≡ n
from_be_bytes-to_be_bytes n h = omega arith

-- Two `u64` with the same bytes are the same.
pub to_be_bytes-injective :
    (m n : ℕ) → m < 2 ^ 64 → n < 2 ^ 64 → to_be_bytes m ≡ to_be_bytes n → m ≡ n
to_be_bytes-injective m n h k e =
    sym (from_be_bytes-to_be_bytes m h) ∙ ap from_be_bytes e ∙ from_be_bytes-to_be_bytes n k
