-- ===== src/Tests/Rounds.antt =====
-- Tests of the handlers of blocks and rounds.
use dd.Base.{List, ◌≡◌, refl, ℕ, Option, none, some, List, [], ◌∷◌, arith}
use dd.Chain.Ends.{IsChained, blocks}
use dd.Engine.Ooo.{new_ooo}
use dd.Engine.Blocks.{block_msg, Identity, Handled, handle_block, handle_round}
use dd.Engine.Run.{Event, reads, handles, begins, new_engine, run_engine, run_engine-IsChained}
use dd.Engine.Retry.{handle_round-IsChained}
use dd.Tests.Memory.{crypto, radix, memory, Memory, memory-StoreLaws}
use dd.Tests.Accounts.{alice}
use dd.Tests.Chains.{chain, store, block, after, store-IsChained}

-- alice, whose tokens and signatures are one byte
abbrev member : Identity
member = record { pk = alice; prove = λ seed. (1 ∷ [], []); sign = λ b. 1 ∷ [] }

abbrev proposed : Option Memory
proposed =
    (handle_round member chain.genesis_id 10 (store ∷ store ∷ []) store chain new_ooo [] 1 1).store

abbrev after_round : Memory
after_round = elim proposed [ none ↦ store | some t ↦ t ]

handle_block-run : (handle_block (store ∷ store ∷ []) chain new_ooo [] block).store ≡ some after
unfolding dd.Chain.Genesis.new_chain dd.Block.id_round dd.Base.Bytes.put_u64 dd.Base.Map.has
    dd.Base.Sort.bytes_less dd.Base.Sort.sort_slice dd.Block.append_write dd.Block.write_hashes
    dd.Chain.Genesis.create_genesis dd.Chain.Genesis.find_genesis dd.Chain.Genesis.genesis_writes
    dd.Chain.Walk.log_of dd.Chain.Walk.state_at dd.Chain.Walk.walk dd.Chain.Weigh.set_tip
    dd.Chain.Weigh.weigh_blocks dd.Chain.Weigh.weigh_round dd.Chain.Weigh.weigh_rounds
    dd.Ssi.any_newer dd.Ssi.commit dd.Ssi.commit_time dd.Ssi.handle_commit dd.Ssi.insert_all
    dd.Ssi.key_set dd.Ssi.mark dd.Ssi.oracle_commit dd.State.apply dd.State.new_state
    dd.State.replay_block dd.State.replay_log dd.Write.deposits_from dd.Write.join
    dd.Write.row_bytes dd.Write.sum_of dd.Write.write_encoding dd.Write.write_hash
    dd.Tests.Memory.of_round dd.Block.block_hash dd.State.update dd.Base.Bytes.be64
    dd.Ssi.Client.run dd.Kv.coinbase_transfer dd.Kv.deposit_stake dd.Ssi.tx_get dd.Base.Map.get
    dd.Ssi.tx_set dd.Base.Map.put dd.Ssi.new_tx dd.Base.Bytes.bytes_eq dd.Base.Bytes.u64
    dd.Write.total_deposit dd.Write.stake_deposits dd.Chain.Weigh.weigh dd.Tests.Memory.highest
    dd.Chain.Append.append dd.Chain.Append.check dd.Chain.Append.check_new
    dd.Chain.Append.check_ancestry dd.Chain.Append.find dd.Chain.Append.any_deposit
    dd.Chain.Append.apply_writes dd.Chain.Append.finish dd.Chain.Append.vote dd.Chain.Append.cast
    dd.Block.verify_signature dd.Block.verify_token dd.Block.seed dd.Block.rank dd.Block.set_bytes
    dd.State.view dd.Kv.read_stake dd.Write.has_deposit_for dd.Tests.Memory.find_entry
    dd.Chain.Append.check_rank dd.Chain.Append.vet dd.Chain.Append.accept_writes
    dd.Chain.Append.block_after dd.Chain.Append.stamp_writes dd.Engine.Blocks.handle_block
    dd.Engine.Blocks.append_block dd.Engine.Blocks.relay dd.Engine.Blocks.share
    dd.Engine.Blocks.handle_round dd.Engine.Blocks.mint_block dd.Engine.Ooo.resolve
    dd.Engine.Ooo.resolve_round dd.Engine.Ooo.handle_all dd.Engine.Ooo.handle
    dd.Engine.Ooo.handle_on dd.Engine.Ooo.deferred dd.Engine.Ooo.missing dd.Engine.Pool.pick
    dd.Engine.Pool.take_write dd.Engine.dependency dd.Engine.Ooo.await
handle_block-run = refl

handle_round-run : proposed ≡ some after_round
unfolding dd.Chain.Genesis.new_chain dd.Block.id_round dd.Base.Bytes.put_u64 dd.Base.Map.has
    dd.Base.Sort.bytes_less dd.Base.Sort.sort_slice dd.Block.append_write dd.Block.write_hashes
    dd.Chain.Genesis.create_genesis dd.Chain.Genesis.find_genesis dd.Chain.Genesis.genesis_writes
    dd.Chain.Walk.log_of dd.Chain.Walk.state_at dd.Chain.Walk.walk dd.Chain.Weigh.set_tip
    dd.Chain.Weigh.weigh_blocks dd.Chain.Weigh.weigh_round dd.Chain.Weigh.weigh_rounds
    dd.Ssi.any_newer dd.Ssi.commit dd.Ssi.commit_time dd.Ssi.handle_commit dd.Ssi.insert_all
    dd.Ssi.key_set dd.Ssi.mark dd.Ssi.oracle_commit dd.State.apply dd.State.new_state
    dd.State.replay_block dd.State.replay_log dd.Write.deposits_from dd.Write.join
    dd.Write.row_bytes dd.Write.sum_of dd.Write.write_encoding dd.Write.write_hash
    dd.Tests.Memory.of_round dd.Block.block_hash dd.State.update dd.Base.Bytes.be64
    dd.Ssi.Client.run dd.Kv.coinbase_transfer dd.Kv.deposit_stake dd.Ssi.tx_get dd.Base.Map.get
    dd.Ssi.tx_set dd.Base.Map.put dd.Ssi.new_tx dd.Base.Bytes.bytes_eq dd.Base.Bytes.u64
    dd.Write.total_deposit dd.Write.stake_deposits dd.Chain.Weigh.weigh dd.Tests.Memory.highest
    dd.Chain.Append.append dd.Chain.Append.check dd.Chain.Append.check_new
    dd.Chain.Append.check_ancestry dd.Chain.Append.find dd.Chain.Append.any_deposit
    dd.Chain.Append.apply_writes dd.Chain.Append.finish dd.Chain.Append.vote dd.Chain.Append.cast
    dd.Block.verify_signature dd.Block.verify_token dd.Block.seed dd.Block.rank dd.Block.set_bytes
    dd.State.view dd.Kv.read_stake dd.Write.has_deposit_for dd.Tests.Memory.find_entry
    dd.Chain.Append.check_rank dd.Chain.Append.vet dd.Chain.Append.accept_writes
    dd.Chain.Append.block_after dd.Chain.Append.stamp_writes dd.Engine.Blocks.handle_block
    dd.Engine.Blocks.append_block dd.Engine.Blocks.relay dd.Engine.Blocks.share
    dd.Engine.Blocks.handle_round dd.Engine.Blocks.mint_block dd.Engine.Ooo.resolve
    dd.Engine.Ooo.resolve_round dd.Engine.Ooo.handle_all dd.Engine.Ooo.handle
    dd.Engine.Ooo.handle_on dd.Engine.Ooo.deferred dd.Engine.Ooo.missing dd.Engine.Pool.pick
    dd.Engine.Pool.take_write dd.Engine.dependency dd.Engine.Ooo.await
handle_round-run = refl

handle_round-IsChained_example :
    IsChained chain.genesis_id (blocks after) × IsChained chain.genesis_id (blocks after_round)
handle_round-IsChained_example =
    handle_round-IsChained memory-StoreLaws member 10 (store ∷ store ∷ []) store chain new_ooo []
      block 1 1 after after_round (omega arith) (omega arith)
      (store-IsChained, (store-IsChained, tt)) handle_block-run handle_round-run

-- a block arrives and is handled, then a round begins
abbrev events : List Event
events = reads (block_msg block) ∷ handles (block_msg block) ∷ begins 1 1 ∷ []

run_engine-IsChained_example :
    IsChained chain.genesis_id (blocks (run_engine member 10 (new_engine chain store) events).store)
run_engine-IsChained_example =
    run_engine-IsChained memory-StoreLaws member 10 chain store events store-IsChained
      (tt, (omega arith, (omega arith, tt)))
