-- ===== src/Runtime/Calls.antt =====
-- vasaplatsen/runtime/src/lib.rs: `construct_runtime!`, the runtime's calls and where each is
-- dispatched to. The pallets of substrate are in `Modules`.
use substrate_scaffold.Prelude.{◌≡◌, ◌≢◌, ◌⊎◌}
use substrate_scaffold.Result.{ok, Exec}
use substrate_scaffold.Anchors.{Pallet, State, DispatchError, Call, dispatch}

-- The chain's state: the part of the pallet `Anchors`, and what all others store.
pub record Chain (p : Pallet) (Rest : Type 0) : Type 0 where
  pub pallet : State p
  pub rest : Rest

abbrev pub Outer : Pallet → Type 0 → Type 0
Outer p Rest = Exec (Chain p Rest) (DispatchError p.SystemError) Unit

-- A pallet of substrate that writes nothing but its own storage, and that of pallets beside it
-- which its trait names.
pub record Confined (p : Pallet) (Rest : Type 0) : Type 1 where
  pub Calls : Type 0
  pub run : p.Origin → Calls → Outer p Rest
  pub keeps :
      (origin : p.Origin) (c : Calls) (s : Chain p Rest) → (run origin c s).1.pallet ≡ s.pallet

-- The pallets of substrate that have calls, with what they document. The origin `root` is not a
-- signed one. System's calls write to storage of other pallets (`set_storage`, `kill_storage` and
-- the like) with the origin `root` only. Sudo has three calls. `sudo` runs its proposal with the
-- origin `root`, if the sudo key signed, and refuses otherwise; `sudo_as` runs it, on the same
-- condition, with the origin of the account at an address; `set_key`, in `set_key`, writes the key.
pub record Modules (p : Pallet) : Type 1 where
  pub Rest : Type 0
  pub root : p.Origin
  pub root_unsigned : (who : p.AccountId) → p.ensure_signed root ≢ ok who
  pub SystemCall : Type 0
  pub system : p.Origin → SystemCall → Outer p Rest
  pub system_keeps :
      (origin : p.Origin) (c : SystemCall) (s : Chain p Rest)
      → origin ≢ root
      → (system origin c s).1.pallet ≡ s.pallet
  pub timestamp : Confined p Rest
  pub grandpa : Confined p Rest
  pub indices : Confined p Rest
  pub balances : Confined p Rest
  pub randomness_collective_flip : Confined p Rest
  pub set_key : Confined p Rest
  pub key_of : Rest → p.AccountId
  pub signed : p.AccountId → p.Origin
  pub ensure_signed-signed : (who : p.AccountId) → p.ensure_signed (signed who) ≡ ok who
  pub sudo : p.Origin → (p.Origin → Outer p Rest) → Outer p Rest
  pub sudo_ran :
      (origin : p.Origin) (proposal : p.Origin → Outer p Rest) (s : Chain p Rest)
      → ((sudo origin proposal s).1.pallet ≡ s.pallet)
        ⊎ ((t : Chain p Rest) × (p.ensure_signed origin ≡ ok (key_of s.rest))
            × (t.pallet ≡ s.pallet)
            × ((sudo origin proposal s).1.pallet ≡ (proposal root t).1.pallet))
  pub Address : Type 0
  pub sudo_as : p.Origin → Address → (p.Origin → Outer p Rest) → Outer p Rest
  pub sudo_as_ran :
      (origin : p.Origin) (address : Address) (proposal : p.Origin → Outer p Rest)
      (s : Chain p Rest)
      → ((sudo_as origin address proposal s).1.pallet ≡ s.pallet)
        ⊎ ((t : Chain p Rest) × (who : p.AccountId) × (p.ensure_signed origin ≡ ok (key_of s.rest))
            × (t.pallet ≡ s.pallet)
            × ((sudo_as origin address proposal s).1.pallet ≡ (proposal (signed who) t).1.pallet))

-- `enum Call` of the runtime. Two calls of Sudo hold a call: `type Proposal = Call`.
pub data OuterCall (p : Pallet) (m : Modules p) : Type 0 where
  system_call : m.SystemCall → OuterCall p m
  timestamp_call : m.timestamp.Calls → OuterCall p m
  grandpa_call : m.grandpa.Calls → OuterCall p m
  indices_call : m.indices.Calls → OuterCall p m
  balances_call : m.balances.Calls → OuterCall p m
  sudo_call : OuterCall p m → OuterCall p m
  sudo_as_call : m.Address → OuterCall p m → OuterCall p m
  set_key_call : m.set_key.Calls → OuterCall p m
  randomness_collective_flip_call : m.randomness_collective_flip.Calls → OuterCall p m
  anchors_call : Call p.trait → OuterCall p m

module _ (p : Pallet) (m : Modules p) where
  anchors_run : p.Origin → Call p.trait → Outer p m.Rest
  anchors_run origin c s = let d = dispatch p origin c s.pallet in (d.0, record s { pallet = d.1 })

  unfoldable pub outer_dispatch : OuterCall p m → p.Origin → Outer p m.Rest
  unfolding anchors_run
  outer_dispatch (system_call c) origin = m.system origin c
  outer_dispatch (timestamp_call c) origin = m.timestamp.run origin c
  outer_dispatch (grandpa_call c) origin = m.grandpa.run origin c
  outer_dispatch (indices_call c) origin = m.indices.run origin c
  outer_dispatch (balances_call c) origin = m.balances.run origin c
  outer_dispatch (sudo_call c) origin = m.sudo origin (λ o. outer_dispatch c o)
  outer_dispatch (sudo_as_call address c) origin =
      m.sudo_as origin address (λ o. outer_dispatch c o)
  outer_dispatch (set_key_call c) origin = m.set_key.run origin c
  outer_dispatch (randomness_collective_flip_call c) origin =
      m.randomness_collective_flip.run origin c
  outer_dispatch (anchors_call c) origin = anchors_run origin c
