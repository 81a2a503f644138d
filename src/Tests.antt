-- ===== src/Tests.antt =====
-- The repository's tests at toy values, and the theorems at inputs that meet their hypotheses.
mod Toy
mod ToyNode
mod TollNode
mod TollLaws
mod TollExamples
mod RuntimeExamples
mod GenesisExamples
mod Pallet
mod Scene
mod AnchorExamples
mod MerkleExamples
mod KeyExamples
mod NodeExamples
mod MemberExamples
mod BindingExamples
mod MockExamples
mod CommandExamples
mod PassesExamples
mod ViewExamples
