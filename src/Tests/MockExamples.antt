-- ===== src/Tests/MockExamples.antt =====
-- The theorems about the tests of mod.rs, at a digest that runs.
use substrate_scaffold.Prelude.{
  ℕ, ◌≡◌, ◌≢◌, ◌⊎◌, refl, ap, arith, Option, none, some, List, [], ◌∷◌, eq_nat, eq_array,
}
use substrate_scaffold.Result.{Result, ok, err}
use substrate_scaffold.Storage.{StorageMap, function_map}
use substrate_scaffold.Anchors.{AnchorKey, LeafKey, Revokable, UnixTimeSeconds}
use substrate_scaffold.Anchors.Effects.{anchor_key_discrete, leaf_key_discrete}
use substrate_scaffold.Anchors.Mock.{MockExternals, test_trait}
use substrate_scaffold.Anchors.Mock.Scenarios.{Test, execute_with, test_run, zeros}
use substrate_scaffold.Anchors.Mock.Members.{Clash}
use substrate_scaffold.Anchors.Mock.Passes.{tests_pass}
use substrate_scaffold.Tests.Toy.{toy_digest, into_array, Output}

abbrev signer : Option ℕ → Result ℕ ℕ
signer none = err 0
signer (some who) = ok who

abbrev mock : MockExternals
mock = record {
  Blake2s = toy_digest;
  into_array = into_array;
  Origin = Option ℕ;
  signed = some;
  SystemError = ℕ;
  ensure_signed = signer;
  ensure_signed-signed = λ who. refl;
  genesis_number = 1;
  genesis_number-first = refl;
}

abbrev anchors : StorageMap (AnchorKey (test_trait mock)) (Revokable ℕ)
anchors = function_map {V = Revokable ℕ} (anchor_key_discrete (test_trait mock))

abbrev leaves : StorageMap (LeafKey (test_trait mock)) UnixTimeSeconds
leaves = function_map {V = UnixTimeSeconds} (leaf_key_discrete (test_trait mock))

abbrev head_byte : List ℕ → ℕ
head_byte [] = 0
head_byte (b ∷ bs) = b

unhashed : (s : List ℕ) → toy_digest.result s ≢ zeros
unhashed s e = absurd (omega (arith, ap (λ (a : Output). head_byte a.items) e))

tests_pass_example :
    ((t : Test) → execute_with mock anchors leaves (test_run mock anchors leaves t) ≡ ok tt)
    ⊎ Clash mock 0 [] 1
tests_pass_example = tests_pass mock anchors leaves unhashed
