-- ===== src/Lib.antt =====
-- A verification library for the Tezos indexer. The indexer reads blocks from a node (rpc), turns
-- the balance updates of each operation into flows (puller/flow.go), applies the flows to the
-- accounts that they touch (puller/models/account.go), and takes them back when the chain
-- reorganises.
--
-- The files and the code they model:
--   Common       shared names, Boolean tests, texts read by a table, and int64 (Common/Int64).
--   Utils        utils/minmax.go: minimum and maximum of int64 values.
--   Chain        chain/addr.go, chain/hash.go, chain/magic.go, chain/params.go, chain/op.go,
--                chain/voting.go:
--                addresses with their binary forms and texts, the types of hashes, the parameters of
--                a protocol with the arithmetic of cycles, operation types, voting periods.
--   Rpc          rpc/balance.go: balance updates as the node reports them.
--   Micheline    micheline/primitives.go, micheline/zarith.go and utils/utils.go: the nodes of
--                Michelson data and code (Tree), their binary form (Codec, with Wire for lengths,
--                Zarith for integers and Annots for annotations), and the balance of a vesting
--                contract in a storage.
--   Models       puller/models: flow categories and types, flows, operations, blocks, accounts,
--                income sheets, rights, elections and votes.
--                Models/Block/Totals is Block.Update, Models/Supply and Models/Chain the totals of
--                supply.go and chain.go. Models/Account/Update is UpdateBalance, and
--                Models/Account/Rollback RollbackBalance.
--   Puller       puller/flow.go (Puller/Flows): one function for each New...Flows method.
--                puller/builder.go: the tables of accounts as the flows look them up
--                (Puller/Builder), as a store that the totals change (Puller/Accounts), and
--                UpdateStats and RollbackStats (Puller/Stats).
--                puller/reorg.go: the fork point of a reorganisation (Puller/Reorg).
--                puller/index/incomeindex.go (Puller/Index/Income): a block is booked into the
--                income sheets of its cycle (Models/Income) and out again. An update is also
--                written as a list of turns, one for each row that it changes (Turns, Exec), from
--                which the state of every row follows (Settle, Rows).
--                puller/index/govindex.go (Puller/Index/Gov): the tables of elections, votes,
--                proposals and ballots (Defs, Models/Gov), the quorum, the opening and closing of
--                votes and elections, the counting of proposals and ballots.
--   Tests, TotalsTests, StatsTests, CodecTests, AddressTests, ReorgTests, IncomeTests, GovTests
--                runs at concrete inputs.
--
-- Conventions. A Go int64 is its bit pattern, a natural number below 2 ^ 64 (Common.Int64.Int64):
-- additions, subtractions and products wrap around, comparisons and divisions read the sign.
-- A negative number is a pattern from 2 ^ 63 on. Fields are named as in Go, in lower case. A pointer
-- that may be nil is an Option; the dereference of nil, a failed type assertion and an index out
-- of range are the outcome `panic` of Puller.Builder.Outcome, errors its outcome `err`. Divisions
-- by zero return none. A Go function that changes its receiver returns the new one, beside the
-- error where it returns one. Loops are recursions on the list they run over. The exceptions: the
-- groups of an integer are written by recursion on the number, which falls, and a node is read by
-- recursion on fuel, of twice the length of the buffer and two more: a nested node takes one, an
-- argument of a list another, and both read at least a byte.
--
-- A parameter stands for the 64-bit hash of an address that keys the account tables (a package
-- outside the repository), others for the slots and the delegate that the RPC data of a block give
-- for an endorsement, for what a reorganisation asks of the node and of the database, and for the
-- base58 code of texts (a copy of another project's library). A Go map that is ranged over is a list
-- of its values. Where several maps of the builder point to one account, a change through one pointer
-- is a change of the account with that id in every map.
--
-- The income table is a function that gives the row of a cycle and an account, where there is one; a
-- row is written back to the place that it was loaded from. The tables of the governance index are
-- lists of rows in the order of their ids. A step on them ends with a value or with an error, and in
-- both cases with the tables as written so far (Puller.Index.Gov.Defs.Ended). The database itself
-- never fails. The snapshots of rolls, the accounts of the builder and the contents of an operation
-- are parameters of the governance index (Lookups); the floating-point block reward of protocol 5 is
-- one of the income index.
--
-- Not modelled: the database, JSON, HTTP, goroutines and object pools; floating-point fields; the
-- texts of errors; scripts and big maps; keys and signatures. The operation constructors
-- (puller/op.go), the other indexes (puller/index), the income rows of a new cycle, the crawler and
-- the loops of the reorganisation that change the database are outside this library.
pub mod Common
pub mod Utils
pub mod Chain
pub mod Rpc
pub mod Micheline
pub mod Models
pub mod Puller
pub mod Tests
pub mod TotalsTests
pub mod CodecTests
pub mod StatsTests
pub mod AddressTests
pub mod ReorgTests
pub mod IncomeTests
pub mod GovTests
