-- ===== src/Chain.antt =====
-- The chain of blocks (exp/onl/chain.go): what a member keeps in memory. The blocks themselves are
-- in the store, and the children of this module define the operations on both.
pub mod Walk
pub mod Weigh
pub mod Append
pub mod Genesis
pub mod Ends
pub mod Reads
pub mod Tip
pub mod Found
pub mod Accept
pub mod Keeps
pub mod Steady
pub mod Opens
use dd.Base.{ℕ, Bool, Option, none, Result, ok, err, panic, or_panic, ◌>>=◌}
use dd.Base.Map.{Map}
use dd.Externals.{Crypto, Radix}
use dd.Ssi.Client.{Client}
use dd.Write.{Write}
use dd.State.{State, view, update}
use dd.Block.{Block, BlockId}
use dd.Stakes.{Stakes}

module _ ⦃r : Radix⦄ where
  -- `locked` says that the lock `wmu` of the weights is held for writing; `tstate` is nil until
  -- the first tip is weighed.
  pub record Chain : Type 0 where
    pub points : ℕ
    pub genesis_block : Block
    pub genesis_stakes : Stakes
    pub genesis_id : BlockId
    pub weights : Map ℕ
    pub locked : Bool
    pub tstate : Option State

module _ ⦃c : Crypto⦄ ⦃r : Radix⦄ where
  -- `Chain.View` and `Chain.Update`, on the state of the tip
  unfoldable pub chain_view : {A : Type 0} → Chain → Client A → Result A
  chain_view ch f = do s ← or_panic ch.tstate "nil pointer"; ok (view s f)

  unfoldable pub chain_update : Chain → Client (Unit {0}) → Result (Option Write)
  chain_update ch f = do s ← or_panic ch.tstate "nil pointer"; ok (update s f)
