-- ===== src/Puller/Flows/Baking.antt =====
-- puller/flow.go: the flows of bakers and endorsers, of revealed nonces, invoices and activations.
use tezos_index.Common.{ℕ, Bool, true, ◌&&◌, List, [], ◌∷◌, ◌++◌, none, some}
use tezos_index.Common.{if◌then◌else◌}
use tezos_index.Common.Int64.{Int64, sub64, neg64, lt64, is_neg}
use tezos_index.Chain.Address.{Address}
use tezos_index.Rpc.Balance.{BalanceUpdate, BalanceUpdates, FreezerCategory}
use tezos_index.Rpc.Balance.{FreezerUpdate, cycle_of}
use tezos_index.Models.FlowType.{FlowCategory, FlowType}
use tezos_index.Models.Flow.{Flow}
use tezos_index.Models.Account.{Account}
use tezos_index.Models.Block.{Block}
use tezos_index.Puller.Builder.{Builder, BuildError, Outcome, ok, err, panic, deref, ◌>>=◌, commit}
use tezos_index.Puller.Builder.{account_by_address}
use tezos_index.Puller.Flows.Parts.{out_flow, in_flow}

-- A contract update of the block: a deposit paid from the balance, or a payout credited to it.
unfoldable pub baker_contract_flow : Block → Account → Int64 → Flow
unfolding out_flow in_flow
baker_contract_flow b acc change =
    if is_neg change
    then out_flow b acc acc FlowCategory.balance FlowType.baking (neg64 change)
    else record (in_flow b acc acc FlowCategory.balance FlowType.internal change) {
      is_unfrozen = true;
      token_gen_min = 1;
    }

-- A deposit or reward that is frozen.
unfoldable pub freeze_flow : Block → Account → Account → FlowCategory → FlowType → Int64 → Flow
unfolding in_flow
freeze_flow b acc org c op amount = record (in_flow b acc org c op amount) { is_frozen = true }

-- An amount that leaves the freezer, and one that is burned there because a nonce was not revealed.
unfoldable pub unfreeze_flow : Block → Account → FlowCategory → Int64 → Flow
unfolding out_flow
unfreeze_flow b acc c change = record (out_flow b acc acc c FlowType.internal (neg64 change)) {
  is_unfrozen = true;
}

unfoldable pub seed_burn_flow : Block → Account → FlowCategory → Int64 → Flow
unfolding out_flow
seed_burn_flow b acc c change =
    record (out_flow b acc acc c FlowType.nonce_revelation (neg64 change)) { is_burned = true }

-- `cycle > 0 && cycle > b.block.Cycle-b.block.Params.PreservedCycles`
unfoldable pub is_seed_nonce_slashing : Block → FreezerUpdate → Bool
unfolding cycle_of
is_seed_nonce_slashing b u =
    let cycle = cycle_of u in lt64 0 cycle && lt64 (sub64 b.cycle b.params.preserved_cycles) cycle

unfoldable pub baker_frozen_flows : Block → Account → FreezerCategory → Int64 → List Flow
unfolding freeze_flow
baker_frozen_flows b acc FreezerCategory.deposits change =
    freeze_flow b acc acc FlowCategory.deposits FlowType.baking change ∷ []
baker_frozen_flows b acc FreezerCategory.rewards change =
    freeze_flow b acc acc FlowCategory.rewards FlowType.baking change ∷ []
baker_frozen_flows b acc _ change = []

unfoldable pub baker_payout_flows : Block → Account → FreezerCategory → Bool → Int64 → List Flow
unfolding unfreeze_flow seed_burn_flow
baker_payout_flows b acc FreezerCategory.deposits slashed change =
    unfreeze_flow b acc FlowCategory.deposits change ∷ []
baker_payout_flows b acc FreezerCategory.rewards slashed change =
    (if slashed
      then seed_burn_flow b acc FlowCategory.rewards change
      else unfreeze_flow b acc FlowCategory.rewards change)
    ∷ []
baker_payout_flows b acc FreezerCategory.fees slashed change =
    (if slashed
      then seed_burn_flow b acc FlowCategory.fees change
      else unfreeze_flow b acc FlowCategory.fees change)
    ∷ []
baker_payout_flows b acc FreezerCategory.other slashed change = []

-- A freezer update of the block.
unfoldable pub baker_freezer_flows : Block → Account → FreezerUpdate → List Flow
unfolding baker_frozen_flows baker_payout_flows is_seed_nonce_slashing
baker_freezer_flows b acc u =
    if lt64 0 u.change
    then baker_frozen_flows b acc u.category u.change
    else baker_payout_flows b acc u.category (is_seed_nonce_slashing b u) u.change

-- The account of an address, or the error that it is missing.
unfoldable pub required_account : (Address → ℕ) → Builder → Address → Outcome Account
unfolding account_by_address
required_account hash_key b addr = elim (account_by_address hash_key b addr) [
  | none ↦ err BuildError.missing_account
  | some acc ↦ ok acc
]

-- The loop of `NewBakerFlows`.
unfoldable pub baker_loop :
    (Address → ℕ) → Builder → List Flow → BalanceUpdates → Outcome (List Flow)
unfolding baker_contract_flow baker_freezer_flows required_account
baker_loop hash_key b flows [] = ok flows
baker_loop hash_key b flows (BalanceUpdate.contract u ∷ us) =
    required_account hash_key b u.contract >>= λ acc.
    baker_loop hash_key b (flows ++ (baker_contract_flow b.block acc u.change ∷ [])) us
baker_loop hash_key b flows (BalanceUpdate.freezer u ∷ us) =
    required_account hash_key b u.delegate >>= λ acc.
    baker_loop hash_key b (flows ++ baker_freezer_flows b.block acc u) us
baker_loop hash_key b flows (BalanceUpdate.generic c ∷ us) = baker_loop hash_key b flows us

-- `NewBakerFlows`, on the balance updates of the block's metadata.
unfoldable pub new_baker_flows :
    (Address → ℕ) → Builder → BalanceUpdates → Outcome (Builder × List Flow)
unfolding baker_loop commit
new_baker_flows hash_key b upd = baker_loop hash_key b [] upd >>= commit b

unfoldable pub endorser_frozen_flows : Block → Account → FreezerUpdate → List Flow
unfolding freeze_flow
endorser_frozen_flows b acc u = elim u.category [
  | FreezerCategory.deposits ↦
      freeze_flow b acc acc FlowCategory.deposits FlowType.endorsement u.change ∷ []
  | FreezerCategory.rewards ↦
      freeze_flow b acc acc FlowCategory.rewards FlowType.endorsement u.change ∷ []
  | _ ↦ []
]

-- The loop of `NewEndorserFlows`.
unfoldable pub endorser_loop : Block → Account → BalanceUpdates → List Flow
unfolding out_flow endorser_frozen_flows
endorser_loop b acc [] = []
endorser_loop b acc (BalanceUpdate.contract u ∷ us) =
    out_flow b acc acc FlowCategory.balance FlowType.endorsement (neg64 u.change)
    ∷ endorser_loop b acc us
endorser_loop b acc (BalanceUpdate.freezer u ∷ us) =
    endorser_frozen_flows b acc u ++ endorser_loop b acc us
endorser_loop b acc (BalanceUpdate.generic c ∷ us) = endorser_loop b acc us

-- `NewEndorserFlows`
unfoldable pub new_endorser_flows :
    Builder → Account → BalanceUpdates → Outcome (Builder × List Flow)
unfolding endorser_loop commit
new_endorser_flows b acc upd = commit b (endorser_loop b.block acc upd)

-- `NewInvoiceFlow`
unfoldable pub new_invoice_flow : Builder → Account → Int64 → Flow
unfolding in_flow
new_invoice_flow b acc amount = in_flow b.block acc acc FlowCategory.balance FlowType.invoice amount

-- `NewActivationFlow`: it takes the first balance update and panics where there is none, or where
-- it is no contract update.
unfoldable pub new_activation_flow :
    Builder → Account → BalanceUpdates → Outcome (Builder × List Flow)
unfolding in_flow commit
new_activation_flow b acc [] = panic
new_activation_flow b acc (BalanceUpdate.contract u ∷ us) = commit b (
    record (in_flow b.block acc acc FlowCategory.balance FlowType.activation u.change) {
      token_gen_min = 1;
      token_gen_max = 1;
    }
    ∷ [])
new_activation_flow b acc (BalanceUpdate.freezer u ∷ us) = panic
new_activation_flow b acc (BalanceUpdate.generic c ∷ us) = panic

unfoldable pub seed_nonce_flow : Block → FreezerUpdate → Outcome (List Flow)
unfolding freeze_flow
seed_nonce_flow b u = elim u.category [
  | FreezerCategory.rewards ↦ deref b.baker >>= λ baker.
      ok (freeze_flow b baker baker FlowCategory.rewards FlowType.nonce_revelation u.change ∷ [])
  | _ ↦ ok []
]

-- The loop of `NewSeedNonceFlows`.
unfoldable pub seed_nonce_loop : Block → List Flow → BalanceUpdates → Outcome (List Flow)
unfolding seed_nonce_flow
seed_nonce_loop b flows [] = ok flows
seed_nonce_loop b flows (BalanceUpdate.contract u ∷ us) = seed_nonce_loop b flows us
seed_nonce_loop b flows (BalanceUpdate.freezer u ∷ us) =
    seed_nonce_flow b u >>= λ fs. seed_nonce_loop b (flows ++ fs) us
seed_nonce_loop b flows (BalanceUpdate.generic c ∷ us) = seed_nonce_loop b flows us

-- `NewSeedNonceFlows`
unfoldable pub new_seed_nonce_flows : Builder → BalanceUpdates → Outcome (Builder × List Flow)
unfolding seed_nonce_loop commit
new_seed_nonce_flows b upd = seed_nonce_loop b.block [] upd >>= commit b
