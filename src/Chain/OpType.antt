-- ===== src/Chain/OpType.antt =====
-- chain/op.go: the status and the type of an operation, their texts and the binary tags.
pub mod Texts
use Prim.Native.String.{String}
use tezos_index.Common.Texts.{read_table}
use tezos_index.Common.{ℕ, List, [], ◌∷◌, ◌==◌, if◌then◌else◌, Option, none, some}
use tezos_index.Chain.Params.{Params}

-- `OpStatus`; the zero value is `invalid`.
pub data OpStatus : Type 0 where
  invalid applied failed skipped backtracked : OpStatus

-- `OpType`; the zero value is `bake`.
pub data OpType : Type 0 where
  bake activate_account double_baking_evidence double_endorsement_evidence : OpType
  seed_nonce_revelation transaction origination delegation reveal endorsement : OpType
  proposals ballot unfreeze invoice airdrop seed_slash endorsement_with_slot invalid : OpType

abbrev pub op_status_table : List (String × OpStatus)
op_status_table =
    ("applied", OpStatus.applied)
    ∷ ("failed", OpStatus.failed)
    ∷ ("skipped", OpStatus.skipped)
    ∷ ("backtracked", OpStatus.backtracked)
    ∷ []

-- `ParseOpStatus`
unfoldable pub parse_op_status : String → OpStatus
parse_op_status = read_table op_status_table OpStatus.invalid

-- `OpStatus.String`
unfoldable pub op_status_string : OpStatus → String
op_status_string OpStatus.applied = "applied"
op_status_string OpStatus.failed = "failed"
op_status_string OpStatus.skipped = "skipped"
op_status_string OpStatus.backtracked = "backtracked"
op_status_string OpStatus.invalid = ""

abbrev pub op_type_table : List (String × OpType)
op_type_table =
    ("bake", OpType.bake)
    ∷ ("activate_account", OpType.activate_account)
    ∷ ("double_baking_evidence", OpType.double_baking_evidence)
    ∷ ("double_endorsement_evidence", OpType.double_endorsement_evidence)
    ∷ ("seed_nonce_revelation", OpType.seed_nonce_revelation)
    ∷ ("transaction", OpType.transaction)
    ∷ ("origination", OpType.origination)
    ∷ ("delegation", OpType.delegation)
    ∷ ("reveal", OpType.reveal)
    ∷ ("endorsement", OpType.endorsement)
    ∷ ("proposals", OpType.proposals)
    ∷ ("ballot", OpType.ballot)
    ∷ ("unfreeze", OpType.unfreeze)
    ∷ ("invoice", OpType.invoice)
    ∷ ("airdrop", OpType.airdrop)
    ∷ ("seed_slash", OpType.seed_slash)
    ∷ ("endorsement_with_slot", OpType.endorsement_with_slot)
    ∷ []

-- `ParseOpType`
unfoldable pub parse_op_type : String → OpType
parse_op_type = read_table op_type_table OpType.invalid

-- `OpType.String`
unfoldable pub op_type_string : OpType → String
op_type_string OpType.bake = "bake"
op_type_string OpType.activate_account = "activate_account"
op_type_string OpType.double_baking_evidence = "double_baking_evidence"
op_type_string OpType.double_endorsement_evidence = "double_endorsement_evidence"
op_type_string OpType.seed_nonce_revelation = "seed_nonce_revelation"
op_type_string OpType.transaction = "transaction"
op_type_string OpType.origination = "origination"
op_type_string OpType.delegation = "delegation"
op_type_string OpType.reveal = "reveal"
op_type_string OpType.endorsement = "endorsement"
op_type_string OpType.proposals = "proposals"
op_type_string OpType.ballot = "ballot"
op_type_string OpType.unfreeze = "unfreeze"
op_type_string OpType.invoice = "invoice"
op_type_string OpType.airdrop = "airdrop"
op_type_string OpType.seed_slash = "seed_slash"
op_type_string OpType.endorsement_with_slot = "endorsement_with_slot"
op_type_string OpType.invalid = ""

-- `opTagV1`; a type that the map does not list has the zero value.
unfoldable pub op_tag_v1 : OpType → ℕ
op_tag_v1 OpType.bake = 255
op_tag_v1 OpType.activate_account = 4
op_tag_v1 OpType.double_baking_evidence = 3
op_tag_v1 OpType.double_endorsement_evidence = 2
op_tag_v1 OpType.seed_nonce_revelation = 1
op_tag_v1 OpType.transaction = 8
op_tag_v1 OpType.origination = 9
op_tag_v1 OpType.delegation = 10
op_tag_v1 OpType.reveal = 7
op_tag_v1 OpType.endorsement = 0
op_tag_v1 OpType.proposals = 5
op_tag_v1 OpType.ballot = 6
op_tag_v1 OpType.unfreeze = 255
op_tag_v1 OpType.invoice = 255
op_tag_v1 OpType.airdrop = 255
op_tag_v1 OpType.seed_slash = 255
op_tag_v1 _ = 0

-- `opTagV2`; a type that the map does not list has the zero value.
unfoldable pub op_tag_v2 : OpType → ℕ
op_tag_v2 OpType.bake = 255
op_tag_v2 OpType.activate_account = 4
op_tag_v2 OpType.double_baking_evidence = 3
op_tag_v2 OpType.double_endorsement_evidence = 2
op_tag_v2 OpType.seed_nonce_revelation = 1
op_tag_v2 OpType.transaction = 108
op_tag_v2 OpType.origination = 109
op_tag_v2 OpType.delegation = 110
op_tag_v2 OpType.reveal = 107
op_tag_v2 OpType.endorsement = 0
op_tag_v2 OpType.proposals = 5
op_tag_v2 OpType.ballot = 6
op_tag_v2 OpType.unfreeze = 255
op_tag_v2 OpType.invoice = 255
op_tag_v2 OpType.airdrop = 255
op_tag_v2 OpType.seed_slash = 255
op_tag_v2 _ = 0

-- `Tag`; the parameters may be nil.
unfoldable pub op_tag : OpType → Option Params → ℕ
unfolding op_tag_v1 op_tag_v2
op_tag t none = op_tag_v1 t
op_tag t (some p) = if p.operation_tags_version == 1 then op_tag_v2 t else op_tag_v1 t

-- `ParseOpTag`
unfoldable pub parse_op_tag : ℕ → OpType
parse_op_tag t =
    if t == 0
    then OpType.endorsement
    else if t == 1
    then OpType.seed_nonce_revelation
    else if t == 2
    then OpType.double_endorsement_evidence
    else if t == 3
    then OpType.double_baking_evidence
    else if t == 4
    then OpType.activate_account
    else if t == 5
    then OpType.proposals
    else if t == 6
    then OpType.ballot
    else if t == 7
    then OpType.reveal
    else if t == 107
    then OpType.reveal
    else if t == 8
    then OpType.transaction
    else if t == 108
    then OpType.transaction
    else if t == 9
    then OpType.origination
    else if t == 109
    then OpType.origination
    else if t == 10
    then OpType.delegation
    else if t == 110
    then OpType.delegation
    else OpType.invalid
