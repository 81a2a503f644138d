-- ===== src/Anchors.antt =====
-- vasaplatsen/runtime/src/revocable_anchors/mod.rs: the pallet. Its storage, its three
-- dispatchables as actions on the chain's state, and its two queries.
pub mod Outcomes
pub mod Effects
pub mod Entries
pub mod Lifecycle
pub mod Permanence
pub mod Turning
pub mod Postings
pub mod Revocations
pub mod Suspensions
pub mod Authority
pub mod Membership
pub mod Independence
pub mod Ledger
pub mod Commute
pub mod Provenance
pub mod Observation
pub mod Refusals
pub mod View
pub mod Orders
pub mod Mock
use substrate_scaffold.Prelude.{
  ℕ, ◌≡◌, String, Bool, true, false, not, Option, none, some, List, length, Eq, ltb, leb,
}
use substrate_scaffold.Hasher.{Digest, Hash, Hashed, FromOutput, prehashed}
use substrate_scaffold.Merkle.{MerkleRoot, ProofElement, verify_proof}
use substrate_scaffold.Result.{
  Result, ok, err, Exec, pure, lift, ensure, gets, modify, bind, ◌>>=◌, ◌>>◌,
}
use substrate_scaffold.Storage.{StorageMap}

abbrev pub max_proof_size : ℕ
max_proof_size = 16

-- `Document = ()`, only used for the types.
abbrev pub Document : Type 0
Document = Unit

abbrev pub UnixTimeSeconds : Type 0
UnixTimeSeconds = ℕ

pub data Revokable (T : Type 0) : Type 0 where
  not_revoked : T → Revokable T
  revoked : Revokable T

-- `trait Trait: system::Trait`, with what the pallet uses of `system`. Block numbers are natural
-- numbers.
pub record Trait : Type 1 where
  pub AccountId : Type 0
  pub Origin : Type 0
  pub SystemError : Type 0
  pub ensure_signed : Origin → Result SystemError AccountId
  pub TreeHash : Digest
  pub TreeHashOut : Type 0
  pub hash_out : Hash TreeHashOut
  pub eq_out : Eq TreeHashOut
  pub from_out : FromOutput TreeHash TreeHashOut
  pub hash_account_id : AccountId → TreeHash.State → TreeHash.State

abbrev pub AnchorKey : Trait → Type 0
AnchorKey t = MerkleRoot t.AccountId t.TreeHashOut × MerkleRoot Document t.TreeHashOut

abbrev pub LeafKey : Trait → Type 0
LeafKey t = MerkleRoot t.AccountId t.TreeHashOut × Hashed Document t.TreeHashOut

-- The trait with the two storage maps that `decl_storage!` declares.
pub record Pallet : Type 1 where
  pub trait : Trait
  pub open trait use *
  pub Anchors : StorageMap (AnchorKey trait) (Revokable ℕ)
  pub SuspendedLeaves : StorageMap (LeafKey trait) UnixTimeSeconds

-- `DispatchError`, as far as the pallet makes one: what `?` converts, and a message.
pub data DispatchError (E : Type 0) : Type 0 where
  system : E → DispatchError E
  other : String → DispatchError E

-- The part of the chain's state that the pallet reads or writes.
pub record State (p : Pallet) : Type 0 where
  pub anchors : p.Anchors.Store
  pub suspended_leaves : p.SuspendedLeaves.Store
  pub block_number : ℕ

-- `enum Call`
pub data Call (t : Trait) : Type 0 where
  create_anchor_call :
      MerkleRoot t.AccountId t.TreeHashOut → MerkleRoot Document t.TreeHashOut → Call t
  revoke_anchor_call :
      MerkleRoot t.AccountId t.TreeHashOut
      → MerkleRoot Document t.TreeHashOut
      → List (ProofElement t.TreeHashOut)
      → Call t
  suspend_leaf_call :
      MerkleRoot t.AccountId t.TreeHashOut
      → Hashed Document t.TreeHashOut
      → List (ProofElement t.TreeHashOut)
      → UnixTimeSeconds
      → Call t

-- `fn hash_account_id`
unfoldable pub hash_account_id : (t : Trait) → t.AccountId → Hashed t.AccountId t.TreeHashOut
unfolding prehashed
hash_account_id t preimage =
    let hasher = t.hash_account_id preimage t.TreeHash.new in
    prehashed (t.from_out.from_alt (t.TreeHash.result hasher))

-- `verify_proof` at the pallet's types, for the account that signed.
unfoldable pub is_member :
    (t : Trait)
    → MerkleRoot t.AccountId t.TreeHashOut
    → List (ProofElement t.TreeHashOut)
    → t.AccountId
    → Bool
is_member t admins proof sender =
    verify_proof t.TreeHash ⦃h = t.hash_out⦄ ⦃f = t.from_out⦄ ⦃e = t.eq_out⦄ admins proof
      (hash_account_id t sender)

-- `anchor != Some(Revokable::Revoked)`
abbrev pub is_not_revoked : Option (Revokable ℕ) → Bool
is_not_revoked (some revoked) = false
is_not_revoked _ = true

-- `if let Some(end) = current_suspend_end { suspend_end > end }`
abbrev pub is_extended : Option UnixTimeSeconds → UnixTimeSeconds → Bool
is_extended none suspend_end = true
is_extended (some end) suspend_end = ltb end suspend_end

module _ (p : Pallet) where
  abbrev pub Dispatch : Type 0 → Type 0
  Dispatch = Exec (State p) (DispatchError p.SystemError)

  signer : Result p.SystemError p.AccountId → Dispatch p.AccountId
  signer (ok who) = lift (ok who)
  signer (err e) = lift (err (system e))

  -- `ensure_signed(origin)?`
  unfoldable pub signed : p.Origin → Dispatch p.AccountId
  unfolding signer
  signed origin = signer (p.ensure_signed origin)

  unfoldable pub create_anchor :
      p.Origin
      → MerkleRoot p.AccountId p.TreeHashOut
      → MerkleRoot Document p.TreeHashOut
      → Dispatch Unit
  unfolding signed
  create_anchor origin admins root = do
    sender ← signed origin
    anchored ← gets (λ s. p.Anchors.exists s.anchors (admins, root))
    ensure (not anchored) (other "The root has already been anchored.")
    number ← gets (λ s. s.block_number)
    modify
        (λ s. record s { anchors = p.Anchors.insert s.anchors (admins, root) (not_revoked number) })

  unfoldable pub revoke_anchor :
      p.Origin
      → MerkleRoot p.AccountId p.TreeHashOut
      → MerkleRoot Document p.TreeHashOut
      → List (ProofElement p.TreeHashOut)
      → Dispatch Unit
  unfolding signed
  revoke_anchor origin admins root proof = do
    sender ← signed origin
    ensure (leb (length proof) max_proof_size) (other "proof too long")
    anchor ← gets (λ s. p.Anchors.get s.anchors (admins, root))
    ensure (is_not_revoked anchor) (other "anchor already revoked")
    ensure (is_member p.trait admins proof sender) (other "invalid proof")
    modify (λ s. record s { anchors = p.Anchors.insert s.anchors (admins, root) revoked })

  unfoldable pub suspend_leaf :
      p.Origin
      → MerkleRoot p.AccountId p.TreeHashOut
      → Hashed Document p.TreeHashOut
      → List (ProofElement p.TreeHashOut)
      → UnixTimeSeconds
      → Dispatch Unit
  unfolding signed
  suspend_leaf origin admins leaf proof suspend_end = do
    sender ← signed origin
    ensure (leb (length proof) max_proof_size) (other "proof too long")
    current_suspend_end ← gets (λ s. p.SuspendedLeaves.get s.suspended_leaves (admins, leaf))
    ensure (is_extended current_suspend_end suspend_end)
        (other "leaf is already suspended until specified time")
    ensure (is_member p.trait admins proof sender) (other "invalid proof")
    modify (λ s. record s {
      suspended_leaves = p.SuspendedLeaves.insert s.suspended_leaves (admins, leaf) suspend_end;
    })

  -- The dispatch of a `Call`.
  unfoldable pub dispatch : p.Origin → Call p.trait → Dispatch Unit
  unfolding create_anchor revoke_anchor suspend_leaf
  dispatch origin (create_anchor_call admins root) = create_anchor origin admins root
  dispatch origin (revoke_anchor_call admins root proof) = revoke_anchor origin admins root proof
  dispatch origin (suspend_leaf_call admins leaf proof suspend_end) =
      suspend_leaf origin admins leaf proof suspend_end

  unfoldable pub lookup_anchor :
      State p
      → MerkleRoot p.AccountId p.TreeHashOut
      → MerkleRoot Document p.TreeHashOut
      → Option (Revokable ℕ)
  lookup_anchor s auths root = p.Anchors.get s.anchors (auths, root)

  suspended_at : Option UnixTimeSeconds → UnixTimeSeconds → Bool
  suspended_at none now = false
  suspended_at (some suspension_end) now = leb now suspension_end

  unfoldable pub leaf_suspended_by :
      State p
      → MerkleRoot p.AccountId p.TreeHashOut
      → Hashed Document p.TreeHashOut
      → UnixTimeSeconds
      → Bool
  unfolding suspended_at
  leaf_suspended_by s auths leaf now =
      suspended_at (p.SuspendedLeaves.get s.suspended_leaves (auths, leaf)) now
