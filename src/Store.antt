-- ===== src/Store.antt =====
-- The store of a chain (exp/onl/store.go): the interface `Tx` of a transaction on it, with the laws
-- that the chain relies on. `Store.Badger` has its implementation.
pub mod Badger
pub mod Laws
use dd.Base.{◌≡◌, ℕ, ◌<◌, List, Result, ok, length, if◌then◌else◌}
use dd.Base.Bytes.{u64_mod, bytes_eq}
use dd.Base.Int.{ℤ}
use dd.Externals.{Crypto}
use dd.Block.{Block, BlockId, block_hash}
use dd.Stakes.{Stakes}

-- what is stored of a block
pub record Entry : Type 0 where
  pub block : Block
  pub stakes : Stakes
  pub rank : ℤ

-- A value of `T` is a transaction with the changes made in it so far.
pub record StoreTx : Type 1 where
  pub T : Type 0
  -- `ReadTip`, `WriteTip`
  pub read_tip : T → Result (BlockId × ℕ)
  pub write_tip : BlockId → ℕ → T → Result T
  -- `Write`, `Read`
  pub write : Entry → T → Result T
  pub read : BlockId → T → Result Entry
  -- the blocks that `Round` hands to its callback, with their identifiers
  pub round : ℕ → T → Result (List (BlockId × Entry))
  -- `MaxRound`, `MinRound`
  pub max_round : T → ℕ
  pub min_round : T → ℕ
  -- `Commit`: what the store holds afterwards
  pub commit : T → Result T

-- What a transaction promises: an entry that was written is read back under the hash of its block,
-- and neither a write of another block nor one of the tip changes it; the tip that was
-- written is read back; and a commit keeps what was read.
pub record StoreLaws ⦃c : Crypto⦄ (x : StoreTx) : Type 0 where
  pub read-write :
      (e : Entry) (t u : x.T) (id : BlockId)
      → x.write e t ≡ ok u
      → x.read id u ≡ (if bytes_eq (block_hash e.block) id then ok e else x.read id t)
  pub read-write_tip :
      (tip : BlockId) (w : ℕ) (t u : x.T) (id : BlockId)
      → x.write_tip tip w t ≡ ok u
      → x.read id u ≡ x.read id t
  pub read_tip-write_tip :
      (tip : BlockId) (w : ℕ) (t u : x.T)
      → length tip ≡ 32
      → w < u64_mod
      → x.write_tip tip w t ≡ ok u
      → x.read_tip u ≡ ok (tip, w)
  pub read-commit : (t u : x.T) (id : BlockId) → x.commit t ≡ ok u → x.read id u ≡ x.read id t
