-- ===== src/Chain/Walk.antt =====
-- Walking a chain towards its genesis, and the state that a block represents (`walk` and `state` of
-- exp/onl/chain.go). The loop takes fuel: the round of the block, plus one.
use dd.Base.{
  ℕ, zero, suc, true, false, List, [], ◌∷◌, Result, ok, err, ◌>>=◌, ◌>>◌, failed, diverges, fail_if,
  wrapped, if◌then◌else◌,
}
use dd.Base.Bytes.{bytes_eq}
use dd.Externals.{Radix}
use dd.Write.{Write}
use dd.State.{State, new_state, zeros}
use dd.Block.{BlockId, id_round}
use dd.Store.{Entry, StoreTx}
use dd.Chain.{Chain}

-- `NilID`
abbrev pub nil_id : BlockId
nil_id = zeros 32

module _ ⦃x : StoreTx⦄ where
  -- `Chain.walk` with the callback `f`, which sees and may change the transaction. The result is
  -- what the callback has made of `s`.
  unfoldable pub walk {ℓ} :
      {S : Type ℓ}
      → BlockId
      → (BlockId → Entry → S × x.T → Result (S × x.T))
      → ℕ
      → BlockId
      → S × x.T
      → Result (S × x.T)
  walk gen f zero id st = err diverges
  walk gen f (suc fuel) id st = elim (x.read id st.1) [
    | err e ↦ err e
    | ok entry ↦ elim (f id entry st) [
      | err e ↦ err e
      | ok st' ↦ elim (bytes_eq id gen) [
        | true ↦ ok st'
        | false ↦ walk gen f fuel entry.block.prev st'
      ]
    ]
  ]

  -- the fuel for a walk from `id`
  abbrev pub walk_fuel : BlockId → ℕ
  walk_fuel id = suc (id_round id)

  -- the callback of `state`: the writes of older blocks go in front
  abbrev pub collect : BlockId → Entry → List (List Write) × x.T → Result (List (List Write) × x.T)
  collect id entry (log, t) = ok (entry.block.writes ∷ log, t)

  -- the log of the chain that ends with `id`, oldest block first
  unfoldable pub log_of : BlockId → BlockId → x.T → Result (List (List Write))
  log_of gen id t = do res ← walk gen collect (walk_fuel id) id ([], t); ok res.0

module _ ⦃r : Radix⦄ ⦃x : StoreTx⦄ where
  -- `Chain.state`: the tip, and the state at `id` or at the tip if `id` is nil
  unfoldable pub state_at : Chain → x.T → BlockId → Result (BlockId × State)
  unfolding log_of
  state_at ch t id = do
    tip ← wrapped "failed to read tip to state from" (x.read_tip t)
    fail_if (bytes_eq tip.0 nil_id) (failed "no tip available, please specify explicitely")
    log ← log_of ch.genesis_id (if bytes_eq id nil_id then tip.0 else id) t
    s ← new_state log
    ok (tip.0, s)
