-- ===== src/ChainSpec/Names.antt =====
-- chain_spec.rs: the names under which the command line knows the alternatives.
use text.Mathlib.TextEquality.{eq_iff}
use substrate_scaffold.Prelude.{◌≡◌, ◌⊎◌, ◌↔◌, inl, inr, String, some, arith}
use substrate_scaffold.ChainSpec.{Alternative, development, local_testnet, ved, from}

-- The spellings of an alternative on the command line.
abbrev pub IsSpelled : Alternative → String → Type 0
IsSpelled development s = s ≡ "dev"
IsSpelled local_testnet s = (s ≡ "") ⊎ (s ≡ "local")
IsSpelled ved s = s ≡ "ved"

-- `from` knows exactly the four spellings, and takes each for its alternative.
pub from-eq_iff : (s : String) (a : Alternative) → (from s ≡ some a) ↔ IsSpelled a s
unfolding from
from-eq_iff s development =
    (λ h. ground (arith, eq_iff s "dev", eq_iff s "ved", eq_iff s "", eq_iff s "local"), λ h. rw h)
from-eq_iff s local_testnet = (
  λ h. ground (arith, eq_iff s "dev", eq_iff s "ved", eq_iff s "", eq_iff s "local"),
  λ h. elim h [ inl e ↦ rw e | inr e ↦ rw e ],
)
from-eq_iff s ved =
    (λ h. ground (arith, eq_iff s "dev", eq_iff s "ved", eq_iff s "", eq_iff s "local"), λ h. rw h)
