-- ===== src/Lib.antt =====
-- Verification library of vasaplatsen, a substrate node whose runtime has a pallet of revocable
-- anchors.
--
-- The program. A document tree is anchored on the chain by its Merkle root, under the Merkle root of
-- the set of accounts that may revoke it, its administrators. Anyone may post an anchor
-- (`create_anchor`). A member of the administrators, who signs and gives a proof of inclusion of
-- their account, may revoke an anchor (`revoke_anchor`) or suspend a leaf up to a time
-- (`suspend_leaf`). The proof is verified by `verify_proof`, which hashes with the runtime's digest.
-- Around the pallet stand the runtime, which picks the digest and the account type; the chain
-- specifications, which make the genesis; the service, which starts a node's tasks; and the command
-- line.
--
-- Files and code (paths from the repository's root):
-- - FromAlt: vasaplatsen/runtime/src/revocable_anchors/fromalt.rs, the trait `FromAlt`.
-- - Hasher: hasher.rs beside it. `Hash` is a record and each `impl` an instance; `Hashed`,
--   `prehashed`, `from_preimage`. Hasher/Preimage, Fixed and Concat have the bytes that a value
--   feeds, outputs of fixed length, and preimages that feed the same bytes.
-- - Merkle: merkle.rs beside it. `MerkleRoot`, `ProofElement`, `merge`, `verify_proof`;
--   Merkle/Tree has `MTree`, `generate`, `root_hash` and `random_proof` of its test module, which
--   serve as the reference for verification. Merkle/Climb reads a proof from the root down,
--   Merkle/Leaves has the leaves and the tosses that reach them, Merkle/Extract takes an accepted
--   proof apart, and Completeness, Soundness, Binding, Longer and Bounds rest on them.
--   Merkle/Scenarios and Merkle/Invalid have the tests of its test module; Merkle/Passes is about how
--   they end.
-- - Result and Storage: what the pallet uses of Rust's `Result` and of `frame_support`'s
--   `StorageMap`, an interface with its laws and a map that meets them.
-- - Anchors: mod.rs beside it. `Trait`, the two storage maps (`Pallet`, `State`), the dispatchables
--   as actions on the state that end in a value or an error, `dispatch` over `Call`, and the queries
--   `lookup_anchor` and `leaf_suspended_by`. Outcomes and Effects are about when calls
--   succeed and what they change; Lifecycle and Permanence about histories of calls and blocks, and
--   what lasts; Turning about the step at which something comes to hold; Postings, Revocations,
--   Suspensions, Authority and Provenance about how anchors come to be posted and revoked, and
--   leaves suspended; Membership about administrators as trees of hashes; Independence about what a
--   call depends on; Ledger about the pallet's contract, which knows neither storage nor errors, and
--   Refusals about which error a call ends in; Commute and Orders about the order of calls; Observation about
--   what the queries show, and View about the quotient of the states by it; Entries about how many
--   entries of the storage change. Anchors/Mock has the mock
--   runtime of the file's test module, Mock/Scenarios its tests as runs on the state, and Mock/Bytes,
--   Members and Passes are about the bytes of an account, the set of one account, and how the tests
--   end.
-- - Runtime: vasaplatsen/runtime/src/lib.rs, its constants and its instance of the pallet's
--   `Trait`; Runtime/Accounts is about the hash of an account, Runtime/Members about
--   administrators as trees of accounts, and Runtime/Binding about the accounts that a root stands
--   for, and Runtime/Endowment about the balances of a genesis against the runtime's constants.
--   Runtime/Calls has `construct_runtime!`: the call of the whole runtime and its dispatch to the
--   pallets, with Sudo's proposals; Runtime/Api the blocks, the versions, and the entry points by
--   which a node runs the runtime. Runtime/Reaching is about what a dispatched call, and the sudo
--   key, can do to the pallet's storage, Blocks about what a node does by making and importing
--   blocks, Onchain about the administrators then, Finality about what it reports, Revokers about how
--   many administrators there can be and that others do not keep an anchor from being posted, and
--   Genesis about the chain that a node runs from a genesis. Runtime/Setup has the values that the
--   runtime gives the traits of substrate's pallets, and Runtime/Extra `SignedExtra`, the checks of a
--   signed extrinsic in their order; Extra/Checks is about what they do together, Extra/Passing
--   about when they let an extrinsic pass, Extra/Loading and Extra/Capacity about how
--   much of the pallet's storage a block can change, Extra/Fees about what a call costs, and Extra/Revoking about what a member of
--   the administrators can do on the chain.
-- - ChainSpec: vasaplatsen/src/chain_spec.rs, `Alternative` with `from` and `load`, the helpers for
--   keys, and `testnet_genesis`; Names, Genesis, Seeds and Validators are about it.
-- - Service: vasaplatsen/src/service.rs, the macro `new_full_start!` and `new_full`; Service/Roles is
--   about the tasks of a node. Service/Light has `new_light`, and Service/Fetching is about it.
-- - Cli: vasaplatsen/src/cli.rs, `load_spec`; Cli/Exit has the signal handler of `into_exit`, and
--   Cli/Run has `run_until_exit` as a machine over signals, the end of the service and the turns of
--   its threads. Cli/Command has `run`, over the commands that `sc_cli` makes of the arguments.
--   Cli/Names, Cli/Start, Cli/Shutdown, Cli/Dispatch and Cli/Finish are about them.
-- - Main: vasaplatsen/src/main.rs, `main`.
-- - Prelude: shared names, Boolean tests, lists and arrays over the native numbers.
-- - Tests: a digest that runs, tests of the pallet at toy values, and the examples of the theorems.
--
-- Choices. A dispatchable is a function from a state to a result and a state, so a change made
-- before an error would be seen. Histories (`Reach`) are sequences of calls, from any origin and in
-- any order, and of new blocks; what a node does (`NodeReach`) is blocks, made and imported, whose
-- extrinsics are calls of the whole runtime, and the validation of transactions and the offchain
-- workers, which leave the pallet alone. Sudo's key can run a call with the origin
-- `root`, by `sudo`, and one with the origin of any account, by `sudo_as`; System's calls can write to
-- any storage with the origin `root`. The theorems about blocks name the two uses that matter to the
-- pallet (`Override`): the key signed an extrinsic whose call holds one of System or of the pallet.
-- The genesis leaves 1 as the number of the block, as the pallet's tests show. Block
-- numbers, times and bytes are natural numbers: the code only compares and stores them, and
-- `u64_max` is written out where the type's bound matters. An event is deposited by no call. No
-- definition takes fuel; all recursion is structural. `rand::random` is a stream given by the
-- caller. A panic is `none` in Merkle/Tree and in ChainSpec, and a failure of its own in Service
-- and Cli.
--
-- Code of other crates is a parameter with its documented behaviour: the digest (`Digest`: a
-- message may be given in pieces), storage maps (`StorageMap`), accounts and signatures (`Trait`,
-- `Runtime.Externals`, `MockExternals`), substrate's pallets and its executive (`Modules`,
-- `Executive`, `Interfaces`, `Built`), the checks of an extrinsic and how it is applied with them
-- (`Extensions`, `Reading`, `Signing`, `Applying`: a call that is declared without a weight weighs 10000 and is
-- of the class `normal`), parts of numbers (`Perbills`), keys and addresses (`ChainSpec.Externals`), the service builder and the
-- tasks (`Service.Externals`, `LightExternals`: a builder's step succeeds only by running its
-- closure), and the commands (`CliExternals`: a node's closure runs with some configuration, or an
-- error comes before). No law says that a digest has no collisions; where that matters the theorem
-- gives the colliding strings.
--
-- Not modelled: encoding and metadata, which macros or substrate make; of lib.rs the lines by which
-- the traits of substrate's own pallets only name types, the mock's `system::Trait` in mod.rs among
-- them, and the aliases of types; the test `types_impl_needed_traits` of merkle.rs, which only
-- compiles; what the node writes to its log; the build scripts, and the deployment scripts under
-- infra, run and install.
pub mod Prelude
pub mod FromAlt
pub mod Hasher
pub mod Merkle
pub mod Result
pub mod Storage
pub mod Anchors
pub mod Runtime
pub mod ChainSpec
pub mod Service
pub mod Cli
pub mod Main
mod Tests
