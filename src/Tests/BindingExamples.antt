-- ===== src/Tests/BindingExamples.antt =====
-- The theorem about two sets of accounts with one root, at toy values.
use substrate_scaffold.Prelude.{◌⊎◌, ◌≡◌, refl, eq_nat}
use substrate_scaffold.Hasher.{hash_array32, hash_u8}
use substrate_scaffold.FromAlt.{from_into}
use substrate_scaffold.Runtime.Binding.{Shared, group-injective}
use substrate_scaffold.Tests.Toy.{toy, into_array}
use substrate_scaffold.Tests.MemberExamples.{accounts}

group-injective_example : (accounts ≡ accounts) ⊎ Shared toy accounts accounts
group-injective_example = group-injective toy accounts accounts refl
