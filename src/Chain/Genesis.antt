-- ===== src/Chain/Genesis.antt =====
-- Opening a chain (`NewChain` of exp/onl/chain.go), and what is read from it (`State`, `Walk`,
-- `Tip`, `Read`, `ForEach`, `Weigh`).
use dd.Base.{
  ℕ, zero, suc, ◌+◌, ◌-◌, ◌%◌, true, false, none, some, List, [], ◌∷◌, ◌++◌, Result, ok, err, ◌>>=◌,
  failed, diverges, not_weighted, wrap, wrapped, or_panic, leb, ◌==◌, if◌then◌else◌,
}
use dd.Base.Bytes.{u64_mod, codes}
use dd.Base.Int.{pos}
use dd.Base.Map.{get}
use dd.Externals.{Crypto, Radix}
use dd.Ssi.Client.{Client}
use dd.Write.{total_deposit}
use dd.State.{State, empty_state, update, zeros}
use dd.Block.{Block, BlockId, block_hash, append_write}
use dd.Stakes.{Stakes, new_stakes, finalization}
use dd.Store.{Entry, StoreTx}
use dd.Chain.{Chain}
use dd.Chain.Walk.{nil_id}
use dd.Chain.Weigh.{weigh}

-- the genesis block before its writes
abbrev pub blank_genesis : ℕ → Block
blank_genesis genr = record {
  round = genr;
  timestamp = 0;
  token = codes "vi veri veniversum vivus vici";
  proof = [];
  pk = zeros 32;
  prev = nil_id;
  signature = zeros 64;
  writes = [];
}

module _ ⦃c : Crypto⦄ ⦃r : Radix⦄ where
  -- The loop over the `genfs`: each runs on the empty state, and its write is appended to the block.
  -- A client without changes makes the Go program dereference a nil write.
  unfoldable pub genesis_writes : State → List (Client (Unit {0})) → Block → ℕ → Result (Block × ℕ)
  genesis_writes st [] b deposits = ok (b, deposits)
  genesis_writes st (f ∷ fs) b deposits = do
    w ← or_panic (update st f) "nil pointer"
    d ← or_panic (total_deposit w) "index out of range"
    genesis_writes st fs (append_write b (some w ∷ [])) ((deposits + d) % u64_mod)

module _ ⦃c : Crypto⦄ ⦃r : Radix⦄ ⦃x : StoreTx⦄ where
  -- the chain around a genesis block, before it is weighed
  abbrev pub chain_from : Block → Stakes → BlockId → Chain
  chain_from b stk id = record {
    points = 1000;
    genesis_block = b;
    genesis_stakes = stk;
    genesis_id = id;
    weights = (nil_id, 0) ∷ [];
    locked = false;
    tstate = none;
  }

  -- the genesis block of an empty store, written with its tip
  unfoldable pub create_genesis : x.T → ℕ → List (Client (Unit {0})) → Result (Chain × x.T)
  unfolding genesis_writes
  create_genesis t genr genfs = do
    res ← genesis_writes empty_state genfs (blank_genesis genr) 0
    t1 ←
        wrapped "failed to write genesis block"
          (x.write (record { block = res.0; stakes = new_stakes res.1; rank = pos 1 }) t)
    t2 ← wrapped "failed to write genesis tip weight" (x.write_tip (block_hash res.0) 0 t1)
    ok (chain_from res.0 (new_stakes res.1) (block_hash res.0), t2)

  -- the genesis block that the store has, or a new one
  unfoldable pub find_genesis : x.T → ℕ → List (Client (Unit {0})) → Result (Chain × x.T)
  unfolding create_genesis
  find_genesis t genr genfs = elim (x.round genr t) [
    | err e ↦ err (wrap "failed to read round 0 for genesis block" e)
    | ok [] ↦ create_genesis t genr genfs
    | ok ((id, e) ∷ []) ↦ ok (chain_from e.block e.stakes id, t)
    | ok ((id, e) ∷ _ ∷ _) ↦ err (
        wrap "failed to read round 0 for genesis block"
          (failed "there is more then just the genesis block"))
  ]

  -- `NewChain`
  unfoldable pub new_chain : x.T → ℕ → List (Client (Unit {0})) → Result (Chain × x.T)
  unfolding find_genesis
  new_chain t genr genfs = do
    found ← find_genesis t genr genfs
    let (ch, res) = weigh found.0 found.1 genr
    t' ← wrapped "failed to weigh chain blocks" res
    t'' ← wrapped "failed to commit writing of genesis block" (x.commit t')
    ok (ch, t'')

  -- `Chain.Tip`: an error is a nil tip
  unfoldable pub tip : x.T → BlockId
  tip t = elim (x.read_tip t) [ err _ ↦ nil_id | ok (id, _) ↦ id ]

  -- `Chain.Read`: the block, its weight and its finalization
  unfoldable pub read_block : Chain → x.T → BlockId → Result (Block × ℕ × (ℕ × ℕ))
  read_block ch t id = do
    e ← x.read id t
    w ← elim (get id ch.weights) [ none ↦ err not_weighted | some w ↦ ok w ]
    f ← or_panic (finalization e.stakes) "encountered block with a 0 deposit sum"
    ok (e.block, w, f)

  -- `Chain.Weigh`
  unfoldable pub weigh_and_commit : Chain → x.T → ℕ → Chain × Result x.T
  weigh_and_commit ch t nr = let (ch', res) = weigh ch t nr in (ch', (do t' ← res; x.commit t'))

  -- the loop of `Chain.forEach`, with the callback as the list of the blocks it sees
  unfoldable pub blocks_from : ℕ → ℕ → x.T → Result (List (BlockId × Entry))
  blocks_from zero rn t = err diverges
  blocks_from (suc fuel) rn t = elim (leb rn (x.max_round t)) [
    | false ↦ ok []
    | true ↦ (do
      items ← wrapped "failed to read blocks from round" (x.round rn t)
      rest ← blocks_from fuel ((rn + 1) % u64_mod) t
      ok (items ++ rest))
  ]

  -- `Chain.forEach`
  unfoldable pub for_each : x.T → ℕ → Result (List (BlockId × Entry))
  unfolding blocks_from
  for_each t start =
      let rn = if start == 0 then x.min_round t else start in
      blocks_from (suc (x.max_round t + 1 - rn)) rn t
