-- ===== src/Lib.antt =====
-- A verification library for the proof-of-stake chain of exp/onl: members propose blocks of signed
-- writes to a replicated key-value state, rank them by a verifiable random token and their stake,
-- and take the chain of the highest weight.
--
-- How the program's parts work together. A client changes the state through a transaction of
-- serializable snapshot isolation (exp/onl/ssi), by the methods for balances and stakes in
-- exp/onl/kv.go. Its changes travel as a write (exp/onl/write.go), and writes travel in blocks
-- (exp/onl/block.go). A state (exp/onl/state.go) is what the writes of the blocks of one chain
-- build. The chain (exp/onl/chain.go) checks a block against the state of the block before it,
-- stores it in a transaction of the store (exp/onl/store.go), weighs the blocks of its round and
-- above, and keeps the state of the tip. The engine (exp/onl/engine) keeps early messages until
-- what they depend on is there, and pending writes until a block of its own takes them.
--
-- Two further designs stand beside it. The chain of exp/onl/wall has no accounts: its blocks make
-- transfers of outputs (tr.go), which are unspent or not (utro.go), and a voter needs a deposit
-- among the unspent outputs, against which its ticket is drawn (exp/onl/thr). A round of exp/slot
-- collects proposals in a voter, which casts votes for the highest, and votes in a ballot, which
-- accepts a proposal with a majority and so begins the next round.
--
-- Which file models which part:
--   Base        names and lemmas that all share: results with Go's errors and panics (Fallible),
--               byte arrays and 64-bit words (Bytes), Go maps (Map), sort.Slice (Sort), integers (Int)
--   Externals   crypto/sha256, the verifiers of signatures and tokens, the immutable radix
--               tree, and the decimals of apd, as parameters
--   Ssi         exp/onl/ssi: Oracle.Commit is `oracle_commit`, the two cases of the goroutine of
--               NewDB are `new_tx` and `handle_commit`, DB.Commit is `commit`; a client of a
--               transaction is a value of `Client`. Ssi.Bank is the sample bank of bank.go, over gob
--               as a parameter, with its promise in Ledger; Commit, Refined, Promise and Total have
--               what is proved of it
--   Kv          exp/onl/kv.go, one client for each method
--   Write       exp/onl/write.go; the read and write rows are maps with the key hashes as keys
--   Block       exp/onl/block.go
--   State       exp/onl/state.go: `apply`, `new_state`, `view`, `update`
--   Stakes      exp/onl/stakes.go
--   Store       the interface Tx of exp/onl/store.go with the laws that the chain relies on, and
--               BadgerTx (Store.Badger) over badger and gob as parameters
--   Chain       exp/onl/chain.go: Walk has `walk` and `state`, Weigh has `weigh`, Append has
--               `Append` and `vote`, Genesis has `NewChain` and the readers; Found, Accept, Keeps, Opens,
--               Ends, Tip, Reads and Steady have what is proved of them
--   Engine      exp/onl/engine: Ooo is the out-of-order buffer of ooo.go, Pool the mempool with its
--               `Add` and `Pick`, Handlers the handlers of writes and syncs, Blocks those of blocks
--               and rounds, Run `Handle` and the events of the engine; Order, Ready, Pooled, Proposal,
--               Retry and Run have what is proved of them
--   Wall        exp/onl/wall: the data and hashes; Transfer has `Tr.Verify` and UTRO, Verify the
--               checks of a block, Threshold exp/onl/thr, Chain the operations of `MemChain`,
--               Identity the signing; Money, Unspent, Form, Select, Accept, Stored, Reach and Replayed
--               have what is proved of them
--   Slot        exp/slot/round.go: the data and their checks; Voter has `Voter2`, Ballot `Ballot`,
--               and Round `Round` and `Lottery`; Rank, Handled, Highest, Voters, Tested, Quorum,
--               Repeat and Own have what is proved of them
--   Tests       concrete instances and runs
--
-- Conventions. A call that changes state takes it and returns it, with the error as a value; a
-- panic of Go is an error `panic`. A nil slice of a lookup is none. Unsigned words are natural
-- numbers with `% 2 ^ 64` written where the code adds. A Go map is an association list, whose
-- order is one of those that Go may iterate in. An operation of the chain gets its store
-- transaction as an argument; what it returns after an error is discarded, as the code does.
--
-- Fuel. The walk of a chain takes one step more than the round of its first block, which is enough
-- since rounds fall towards the genesis; the loops over rounds take one step more than there are
-- rounds. The walk and the loop of exp/onl/wall take as many. A loop that has not ended within its
-- fuel is the error `diverges`, and so is a lock that is never released.
--
-- Not modelled: the network, the clocks and the agents, which are input and output; the functions of
-- the secret keys, whose results are arguments where the code signs or draws; the loop in `Append`
-- that has an empty body; the other experiments under exp/ with exp/onl/tlog/tlog_old, and the
-- code copied from other projects (vrf, the files of exp/onl/tlog).
pub mod Base
pub mod Externals
pub mod Ssi
pub mod Kv
pub mod Write
pub mod Block
pub mod State
pub mod Stakes
pub mod Store
pub mod Chain
pub mod Engine
pub mod Wall
pub mod Slot
pub mod Tests
