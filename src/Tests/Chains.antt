-- ===== src/Tests/Chains.antt =====
-- Tests of the chain: a genesis, and a block that is appended to it.
use dd.Base.{sym, ◌∙◌}
use dd.Base.Int.{pos}
use dd.Base.{
  ◌<◌, Returns, Bool-cases, inl, inr, ◌≡◌, refl, ℕ, ◌+◌, ◌-◌, Bool, true, false, Option, none, some,
  List, [], ◌∷◌, ◌++◌, Result, ok, err, arith, if◌then◌else◌, block_not_exist,
}
use dd.Base.Bytes.{bytes_eq, be64, put_u64, u64}
use dd.Base.Map.{get, put, has}
use dd.Ssi.Client.{Client, run, ◌>>◌}
use dd.Kv.{coinbase_transfer, deposit_stake}
use dd.Write.{Write}
use dd.State.{empty_state, zeros}
use dd.Block.{Block, BlockId, block_hash, id_round, id_round-block_hash}
use dd.Store.{Entry}
use dd.Chain.{Chain}
use dd.Chain.Genesis.{new_chain, chain_from, blank_genesis}
use dd.Chain.Append.{append, Accepted, check}
use dd.Chain.Accept.{append-accepted, Passed}
use dd.Chain.Walk.{log_of}
use dd.Chain.Weigh.{weigh_blocks}
use dd.Chain.Tip.{weigh_blocks-tip, or_tip, last_heavy}
use dd.Chain.Ends.{Ancestry, IsChained, blocks}
use dd.Chain.Opens.{Reachable, opened, appended, Reachable-IsChained, Reachable-ends}
use dd.Chain.Keeps.{append-IsChained}
use dd.Tests.Memory.{crypto, radix, memory, Memory, no_blocks, memory-StoreLaws, find_entry}
use dd.Tests.Accounts.{alice}
use dd.Stakes.{new_stakes}

-- alice has 10, and 3 of it at stake
abbrev pub genesis_client : Client (Unit {0})
genesis_client = do coinbase_transfer alice 10; deposit_stake alice 3 (9 ∷ [])

abbrev pub opening : Result (Chain × Memory)
opening = new_chain no_blocks 0 (genesis_client ∷ [])

abbrev pub chain : Chain
chain = elim opening [ ok (ch, t) ↦ ch | err e ↦ chain_from (blank_genesis 0) (new_stakes 0) [] ]

abbrev pub store : Memory
store = elim opening [ ok (ch, t) ↦ t | err e ↦ no_blocks ]

abbrev pub block : Block
block = record {
  round = 1;
  timestamp = 1;
  token = 1 ∷ [];
  proof = [];
  pk = alice;
  prev = chain.genesis_id;
  signature = 1 ∷ [];
  writes = [];
}

abbrev pub appending : Result Memory
appending = (append chain store block).1

abbrev pub after : Memory
after = elim appending [ ok t ↦ t | err e ↦ store ]

store-Reachable : Reachable chain store
unfolding new_chain id_round put_u64 has dd.Base.Sort.bytes_less dd.Base.Sort.sort_slice
    dd.Block.append_write dd.Block.write_hashes dd.Chain.Genesis.create_genesis
    dd.Chain.Genesis.find_genesis dd.Chain.Genesis.genesis_writes dd.Chain.Walk.log_of
    dd.Chain.Walk.state_at dd.Chain.Walk.walk dd.Chain.Weigh.set_tip dd.Chain.Weigh.weigh_blocks
    dd.Chain.Weigh.weigh_round dd.Chain.Weigh.weigh_rounds dd.Ssi.any_newer dd.Ssi.commit
    dd.Ssi.commit_time dd.Ssi.handle_commit dd.Ssi.insert_all dd.Ssi.key_set dd.Ssi.mark
    dd.Ssi.oracle_commit dd.State.apply dd.State.new_state dd.State.replay_block dd.State.replay_log
    dd.Write.deposits_from dd.Write.join dd.Write.row_bytes dd.Write.sum_of dd.Write.write_encoding
    dd.Write.write_hash dd.Tests.Memory.of_round block_hash dd.State.update be64 run
    coinbase_transfer deposit_stake dd.Ssi.tx_get get dd.Ssi.tx_set put dd.Ssi.new_tx bytes_eq u64
    dd.Write.total_deposit dd.Write.stake_deposits dd.Chain.Weigh.weigh dd.Tests.Memory.highest
    find_entry
store-Reachable =
    opened no_blocks store 0 (genesis_client ∷ []) chain (omega arith) (λ id. refl) refl refl

pub store-IsChained : IsChained chain.genesis_id (blocks store)
store-IsChained = Reachable-IsChained memory-StoreLaws chain store store-Reachable

append_run : appending ≡ ok after
unfolding new_chain id_round put_u64 has dd.Base.Sort.bytes_less dd.Base.Sort.sort_slice
    dd.Block.append_write dd.Block.write_hashes dd.Chain.Genesis.create_genesis
    dd.Chain.Genesis.find_genesis dd.Chain.Genesis.genesis_writes dd.Chain.Walk.log_of
    dd.Chain.Walk.state_at dd.Chain.Walk.walk dd.Chain.Weigh.set_tip dd.Chain.Weigh.weigh_blocks
    dd.Chain.Weigh.weigh_round dd.Chain.Weigh.weigh_rounds dd.Ssi.any_newer dd.Ssi.commit
    dd.Ssi.commit_time dd.Ssi.handle_commit dd.Ssi.insert_all dd.Ssi.key_set dd.Ssi.mark
    dd.Ssi.oracle_commit dd.State.apply dd.State.new_state dd.State.replay_block dd.State.replay_log
    dd.Write.deposits_from dd.Write.join dd.Write.row_bytes dd.Write.sum_of dd.Write.write_encoding
    dd.Write.write_hash dd.Tests.Memory.of_round block_hash dd.State.update be64 run
    coinbase_transfer deposit_stake dd.Ssi.tx_get get dd.Ssi.tx_set put dd.Ssi.new_tx bytes_eq u64
    dd.Write.total_deposit dd.Write.stake_deposits dd.Chain.Weigh.weigh dd.Tests.Memory.highest
    append dd.Chain.Append.check dd.Chain.Append.check_new dd.Chain.Append.check_ancestry
    dd.Chain.Append.check_rank dd.Chain.Append.vet dd.Chain.Append.accept_writes
    dd.Chain.Append.find dd.Chain.Append.any_deposit dd.Chain.Append.apply_writes
    dd.Chain.Append.finish dd.Chain.Append.vote dd.Chain.Append.cast dd.Block.verify_signature
    dd.Block.verify_token dd.Block.seed dd.Block.rank dd.Block.set_bytes dd.State.view
    dd.Kv.read_stake dd.Write.has_deposit_for find_entry
append_run = refl

append-accepted_example :
    (acc : Accepted) × (check chain store block ≡ ok acc) × Passed chain store block acc
append-accepted_example = append-accepted chain store block after append_run

append-IsChained_example : IsChained chain.genesis_id (blocks after)
append-IsChained_example =
    append-IsChained memory-StoreLaws chain store after block (omega arith) store-IsChained
      append_run

id_round-block_hash_example : id_round (block_hash block) ≡ 1
id_round-block_hash_example = id_round-block_hash block (omega arith)

read_genesis : blocks store chain.genesis_id ≡ ok chain.genesis_block
unfolding new_chain id_round put_u64 has dd.Base.Sort.bytes_less dd.Base.Sort.sort_slice
    dd.Block.append_write dd.Block.write_hashes dd.Chain.Genesis.create_genesis
    dd.Chain.Genesis.find_genesis dd.Chain.Genesis.genesis_writes dd.Chain.Walk.log_of
    dd.Chain.Walk.state_at dd.Chain.Walk.walk dd.Chain.Weigh.set_tip dd.Chain.Weigh.weigh_blocks
    dd.Chain.Weigh.weigh_round dd.Chain.Weigh.weigh_rounds dd.Ssi.any_newer dd.Ssi.commit
    dd.Ssi.commit_time dd.Ssi.handle_commit dd.Ssi.insert_all dd.Ssi.key_set dd.Ssi.mark
    dd.Ssi.oracle_commit dd.State.apply dd.State.new_state dd.State.replay_block dd.State.replay_log
    dd.Write.deposits_from dd.Write.join dd.Write.row_bytes dd.Write.sum_of dd.Write.write_encoding
    dd.Write.write_hash dd.Tests.Memory.of_round block_hash dd.State.update be64 run
    coinbase_transfer deposit_stake dd.Ssi.tx_get get dd.Ssi.tx_set put dd.Ssi.new_tx bytes_eq u64
    dd.Write.total_deposit dd.Write.stake_deposits dd.Chain.Weigh.weigh dd.Tests.Memory.highest
    find_entry
read_genesis = refl

-- two blocks of a round over a genesis under the nil identifier, the second of a lower weight
abbrev plain : Entry
plain = record { block = record block { prev = zeros 32 }; stakes = new_stakes 0; rank = pos 1 }

abbrev pair : List (BlockId × Entry)
pair = (1 ∷ zeros 31, plain) ∷ (2 ∷ zeros 31, plain) ∷ []

abbrev fork : Memory
fork = record { entries = (zeros 32, plain) ∷ pair; tip_of = (zeros 32, 0) }

abbrev fork_chain : Chain
fork_chain = chain_from plain.block plain.stakes (zeros 32)

abbrev weighed : Memory
weighed = elim (weigh_blocks 0 0 pair (fork_chain, fork)).1 [ ok t ↦ t | err e ↦ fork ]

weigh_run : (weigh_blocks 0 0 pair (fork_chain, fork)).1 ≡ ok weighed
unfolding new_chain id_round put_u64 has dd.Base.Sort.bytes_less dd.Base.Sort.sort_slice
    dd.Block.append_write dd.Block.write_hashes dd.Chain.Genesis.create_genesis
    dd.Chain.Genesis.find_genesis dd.Chain.Genesis.genesis_writes dd.Chain.Walk.log_of
    dd.Chain.Walk.state_at dd.Chain.Walk.walk dd.Chain.Weigh.set_tip dd.Chain.Weigh.weigh_blocks
    dd.Chain.Weigh.weigh_round dd.Chain.Weigh.weigh_rounds dd.Ssi.any_newer dd.Ssi.commit
    dd.Ssi.commit_time dd.Ssi.handle_commit dd.Ssi.insert_all dd.Ssi.key_set dd.Ssi.mark
    dd.Ssi.oracle_commit dd.State.apply dd.State.new_state dd.State.replay_block dd.State.replay_log
    dd.Write.deposits_from dd.Write.join dd.Write.row_bytes dd.Write.sum_of dd.Write.write_encoding
    dd.Write.write_hash dd.Tests.Memory.of_round block_hash dd.State.update be64 run
    coinbase_transfer deposit_stake dd.Ssi.tx_get get dd.Ssi.tx_set put dd.Ssi.new_tx bytes_eq u64
    dd.Write.total_deposit dd.Write.stake_deposits dd.Chain.Weigh.weigh dd.Tests.Memory.highest
    find_entry
weigh_run = refl

-- the heavier block, of weight 1000, is not the tip
weigh_tip : weighed.tip_of ≡ (2 ∷ zeros 31, 500)
unfolding new_chain id_round put_u64 has dd.Base.Sort.bytes_less dd.Base.Sort.sort_slice
    dd.Block.append_write dd.Block.write_hashes dd.Chain.Genesis.create_genesis
    dd.Chain.Genesis.find_genesis dd.Chain.Genesis.genesis_writes dd.Chain.Walk.log_of
    dd.Chain.Walk.state_at dd.Chain.Walk.walk dd.Chain.Weigh.set_tip dd.Chain.Weigh.weigh_blocks
    dd.Chain.Weigh.weigh_round dd.Chain.Weigh.weigh_rounds dd.Ssi.any_newer dd.Ssi.commit
    dd.Ssi.commit_time dd.Ssi.handle_commit dd.Ssi.insert_all dd.Ssi.key_set dd.Ssi.mark
    dd.Ssi.oracle_commit dd.State.apply dd.State.new_state dd.State.replay_block dd.State.replay_log
    dd.Write.deposits_from dd.Write.join dd.Write.row_bytes dd.Write.sum_of dd.Write.write_encoding
    dd.Write.write_hash dd.Tests.Memory.of_round block_hash dd.State.update be64 run
    coinbase_transfer deposit_stake dd.Ssi.tx_get get dd.Ssi.tx_set put dd.Ssi.new_tx bytes_eq u64
    dd.Write.total_deposit dd.Write.stake_deposits dd.Chain.Weigh.weigh dd.Tests.Memory.highest
    find_entry
weigh_tip = refl

weigh_blocks-tip_example :
    ok weighed.tip_of
    ≡ or_tip (last_heavy fork_chain.points 0 0 pair fork_chain.weights none) (ok fork.tip_of)
weigh_blocks-tip_example =
    weigh_blocks-tip memory-StoreLaws 0 pair fork_chain fork weighed (refl, (refl, tt)) weigh_run

Reachable-IsChained_example : IsChained (append chain store block).0.genesis_id (blocks after)
Reachable-IsChained_example =
    Reachable-IsChained memory-StoreLaws (append chain store block).0 after
      (appended chain store after block store-Reachable (omega arith) append_run)

Reachable-ends_example :
    (log : List (List Write)) × (log_of chain.genesis_id chain.genesis_id store ≡ ok log)
    × Ancestry chain.genesis_id store chain.genesis_id log
Reachable-ends_example =
    Reachable-ends memory-StoreLaws chain store chain.genesis_id chain.genesis_block store-Reachable
      read_genesis
