-- ===== src/Engine/Handlers.antt =====
-- The handlers of the engine that need no new block (exp/onl/engine/engine.go): writes, syncs and the
-- updates of a client. Errors of the broadcast are only logged.
use dd.Base.{none, some, List, [], ◌∷◌, Result, ok, err, panic, ◌>>=◌, wrapped}
use dd.Base.Bytes.{Bytes}
use dd.Externals.{Crypto, Radix}
use dd.Kv.{Pk}
use dd.Ssi.Client.{Client}
use dd.Write.{Write, write_hash}
use dd.Block.{Block, BlockId}
use dd.Store.{StoreTx}
use dd.Chain.{Chain, chain_update}
use dd.Chain.Genesis.{read_block}
use dd.Engine.{Msg}
use dd.Engine.Pool.{Pool, add}

-- a message with a write, and one with a block
abbrev pub write_msg : Write → Msg
write_msg w = record { block = none; write = some w; sync = none }

module _ ⦃c : Crypto⦄ where
  -- `Engine.handleWrite`: the pool and the messages to the peers
  unfoldable pub handle_write : Write → Pool → Pool × List Msg
  handle_write w p =
      let (p', res) = add w p in elim res [ err _ ↦ (p', []) | ok _ ↦ (p', write_msg w ∷ []) ]

module _ ⦃c : Crypto⦄ ⦃r : Radix⦄ where
  -- the write that `Engine.Update` signs
  unfoldable pub sign_write : Pk → Bytes → (Bytes → Bytes) → Write → Write
  sign_write pk nonce sign w =
      let own = record w { pk = pk; nonce = nonce } in
      record own { signature = sign (write_hash own) }

  -- `Engine.Update` with a generated nonce and the signing function of the identity
  unfoldable pub submit :
      Chain
      → Client (Unit {0})
      → Pk
      → Result Bytes
      → (Bytes → Bytes)
      → Pool
      → Result (Pool × List Msg)
  unfolding handle_write sign_write
  submit ch f pk generated sign p = do
    change ← chain_update ch f
    elim change [
      | none ↦ ok (p, [])
      | some w ↦ (do
        nonce ← wrapped "failed to generate nonce" generated
        ok (handle_write (sign_write pk nonce sign w) p))
    ]

module _ ⦃c : Crypto⦄ ⦃r : Radix⦄ ⦃x : StoreTx⦄ where
  -- `Engine.handleSync`: the blocks that are pushed; one that cannot be read is skipped
  unfoldable pub handle_sync : Chain → x.T → List BlockId → Result (List Block)
  handle_sync ch t [] = ok []
  handle_sync ch t (id ∷ ids) = elim (read_block ch t id) [
    | ok (b, w, f) ↦ (do rest ← handle_sync ch t ids; ok (b ∷ rest))
    | err (panic s) ↦ err (panic s)
    | err _ ↦ handle_sync ch t ids
  ]
