-- ===== src/Models/FlowType.antt =====
-- puller/models/flowtype.go: the sub-account that a flow changes, and the operation behind it.
use Prim.Native.String.{String}
use text.Mathlib.Text.{◌==◌ as str_eq}
use tezos_index.Common.{if◌then◌else◌, ◌≡◌, refl}

-- `FlowCategory`, in the order of its constants; the zero value is `rewards`.
pub data FlowCategory : Type 0 where
  rewards deposits fees balance delegation invalid : FlowCategory

-- `FlowType`, in the order of its constants; the zero value is `activation`.
pub data FlowType : Type 0 where
  activation denounciation transaction origination delegation reveal endorsement : FlowType
  baking nonce_revelation internal vest pour invoice airdrop invalid : FlowType

-- `ParseFlowCategory`
unfoldable pub parse_flow_category : String → FlowCategory
parse_flow_category s =
    if str_eq s "rewards"
    then FlowCategory.rewards
    else if str_eq s "deposits"
    then FlowCategory.deposits
    else if str_eq s "fees"
    then FlowCategory.fees
    else if str_eq s "balance"
    then FlowCategory.balance
    else if str_eq s "delegation"
    then FlowCategory.delegation
    else FlowCategory.invalid

-- `FlowCategory.String`
unfoldable pub flow_category_string : FlowCategory → String
flow_category_string FlowCategory.rewards = "rewards"
flow_category_string FlowCategory.deposits = "deposits"
flow_category_string FlowCategory.fees = "fees"
flow_category_string FlowCategory.balance = "balance"
flow_category_string FlowCategory.delegation = "delegation"
flow_category_string FlowCategory.invalid = "invalid"

-- `ParseFlowType`
unfoldable pub parse_flow_type : String → FlowType
parse_flow_type s =
    if str_eq s "activation"
    then FlowType.activation
    else if str_eq s "denounciation"
    then FlowType.denounciation
    else if str_eq s "transaction"
    then FlowType.transaction
    else if str_eq s "origination"
    then FlowType.origination
    else if str_eq s "delegation"
    then FlowType.delegation
    else if str_eq s "reveal"
    then FlowType.reveal
    else if str_eq s "endorsement"
    then FlowType.endorsement
    else if str_eq s "baking"
    then FlowType.baking
    else if str_eq s "noncerevelation"
    then FlowType.nonce_revelation
    else if str_eq s "internal"
    then FlowType.internal
    else if str_eq s "vest"
    then FlowType.vest
    else if str_eq s "pour"
    then FlowType.pour
    else if str_eq s "invoice"
    then FlowType.invoice
    else if str_eq s "airdrop"
    then FlowType.airdrop
    else FlowType.invalid

-- `FlowType.String`
unfoldable pub flow_type_string : FlowType → String
flow_type_string FlowType.activation = "activation"
flow_type_string FlowType.denounciation = "denounciation"
flow_type_string FlowType.transaction = "transaction"
flow_type_string FlowType.origination = "origination"
flow_type_string FlowType.delegation = "delegation"
flow_type_string FlowType.reveal = "reveal"
flow_type_string FlowType.endorsement = "endorsement"
flow_type_string FlowType.baking = "baking"
flow_type_string FlowType.nonce_revelation = "noncerevelation"
flow_type_string FlowType.internal = "internal"
flow_type_string FlowType.vest = "vest"
flow_type_string FlowType.pour = "pour"
flow_type_string FlowType.invoice = "invoice"
flow_type_string FlowType.airdrop = "airdrop"
flow_type_string FlowType.invalid = "invalid"

parse_flow_type-flow_type_string : (t : FlowType) → parse_flow_type (flow_type_string t) ≡ t
unfolding parse_flow_type flow_type_string
parse_flow_type-flow_type_string FlowType.activation = refl
parse_flow_type-flow_type_string t = refl
