-- ===== src/Engine.antt =====
-- The engine of exp/onl/engine: a member's handling of messages and rounds. This file has the
-- messages (broadcast.go).
pub mod Ooo
pub mod Order
pub mod Ready
pub mod Pool
pub mod Proposal
pub mod Pooled
pub mod Handlers
pub mod Blocks
pub mod Retry
pub mod Run
use dd.Base.{ℕ, Option, none, some, List}
use dd.Write.{Write}
use dd.Block.{Block, BlockId}
use dd.Chain.Walk.{nil_id}

-- `Msg`; a sync is its identifiers
pub record Msg : Type 0 where
  pub block : Option Block
  pub write : Option Write
  pub sync : Option (List BlockId)

-- `Msg.Dependency`
unfoldable pub dependency : Msg → BlockId × ℕ
dependency msg = elim msg.write [
  | some _ ↦ (nil_id, 0)
  | none ↦ elim msg.block [ none ↦ (nil_id, 0) | some b ↦ (b.prev, b.round) ]
]
