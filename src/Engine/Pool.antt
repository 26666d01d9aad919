-- ===== src/Engine/Pool.antt =====
-- The pool of pending writes (exp/onl/engine/mempool.go), by their nonces. A dry run stamps a write
-- of the pool, which the pool shares with whoever picked it.
use dd.Block.{Block, append_write}
use dd.Base.{
  ℕ, some, length, leb, Bool, true, false, not, List, [], ◌∷◌, Result, ok, err, already_in_pool,
  invalid_write_signature, if◌then◌else◌,
}
use dd.Base.Map.{Map, has, put}
use dd.Externals.{Crypto, Radix}
use dd.Write.{Write, verify_write}
use dd.State.{State, apply}

-- `MemPool`
abbrev pub Pool : Type 0
Pool = Map Write

-- the writes of a pool, oldest first
abbrev pub pooled : Pool → List Write
pooled [] = []
pooled ((n, w) ∷ p) = w ∷ pooled p

module _ ⦃c : Crypto⦄ where
  -- `MemPool.Add`
  unfoldable pub add : Write → Pool → Pool × Result (Unit {0})
  add w p =
      if not (verify_write w)
      then (p, err invalid_write_signature)
      else if has w.nonce p
      then (p, err already_in_pool)
      else (put w.nonce w p, ok tt)

module _ ⦃r : Radix⦄ where
  -- `MemPool.Pick` with the callback `f`, which says whether to stop and builds up an `S`
  unfoldable pub pick : {S : Type 0} → (Write → S → S × Bool) → State → Pool → S → State × Pool × S
  pick f s [] acc = (s, [], acc)
  pick f s ((n, w) ∷ p) acc =
      let (s', w', res) = apply s w true in
      elim res [
        | err _ ↦ let (s'', p', acc'') = pick f s' p acc in (s'', (n, w') ∷ p', acc'')
        | ok _ ↦
            let (acc', stop) = f w' acc in
            elim stop [
              | true ↦ (s', (n, w') ∷ p, acc')
              | false ↦ let (s'', p', acc'') = pick f s' p acc' in (s'', (n, w') ∷ p', acc'')
            ]
      ]

-- the callback of `handleRound` (engine.go): the block gets the write, until it has `maxw`
unfoldable pub take_write : ℕ → Write → Block → Block × Bool
take_write maxw w b = let b' = append_write b (some w ∷ []) in (b', leb maxw (length b'.writes))
