-- ===== src/Chain/Weigh.antt =====
-- Weighing the blocks and choosing the tip (`weigh` of exp/onl/chain.go). The rounds from `nr` up
-- take fuel: one more than there are rounds.
use dd.Base.{
  ℕ, zero, suc, ◌+◌, ◌-◌, ◌/◌, ◌%◌, Bool, true, false, none, some, List, [], ◌∷◌, Result, ok, err,
  wrap, failed, diverges, leb,
}
use dd.Base.Bytes.{u64_mod}
use dd.Base.Int.{ltb_ℤ}
use dd.Base.Map.{get, put}
use dd.Base.Sort.{sort_slice}
use dd.Externals.{Radix}
use dd.Block.{BlockId}
use dd.Store.{Entry, StoreTx}
use dd.Chain.{Chain}
use dd.Chain.Walk.{state_at, nil_id}

-- a higher rank goes first
abbrev pub outranks : BlockId × Entry → BlockId × Entry → Bool
outranks (_, a) (_, b) = ltb_ℤ b.rank a.rank

-- the weight of the block at place `i` of its round
abbrev pub sum_weight : ℕ → ℕ → ℕ → ℕ
sum_weight points i prevw = (prevw + points / suc i) % u64_mod

module _ ⦃r : Radix⦄ ⦃x : StoreTx⦄ where
  -- The tip and its state are replaced by block `id` of weight `sumw`. The two error returns of this
  -- part leave the lock held.
  unfoldable pub set_tip : Chain → x.T → BlockId → ℕ → Chain × Result x.T
  set_tip ch t id sumw = elim (x.write_tip id sumw t) [
    | err e ↦ (ch, err (wrap "failed to write new tip" e))
    | ok t' ↦ elim (state_at ch t' nil_id) [
      | err e ↦ (ch, err (wrap "failed to re-build state from tip" e))
      | ok (_, s) ↦ (record ch { tstate = some s }, ok t')
    ]
  ]

  -- the loop over the blocks of a round, from place `i` on
  unfoldable pub weigh_blocks : ℕ → ℕ → List (BlockId × Entry) → Chain × x.T → Chain × Result x.T
  weigh_blocks tipw i [] (ch, t) = (record ch { locked = false }, ok t)
  weigh_blocks tipw i ((id, entry) ∷ blocks) (ch, t) = elim (get entry.block.prev ch.weights) [
    | none ↦
        (record ch { locked = false }, err (failed "encountered a prev block without a weight"))
    | some prevw ↦
        let sumw = sum_weight ch.points i prevw in
        let ch' = record ch { weights = put id sumw ch.weights } in
        elim (leb tipw sumw) [
          | false ↦ weigh_blocks tipw (suc i) blocks (ch', t)
          | true ↦
              let (ch'', res) = set_tip ch' t id sumw in
              elim res [
                | err e ↦ (ch'', err e)
                | ok t' ↦ weigh_blocks tipw (suc i) blocks (ch'', t')
              ]
        ]
  ]

  -- one round of `weigh`; to lock a lock that is held never returns
  unfoldable pub weigh_round : ℕ → ℕ → Chain × x.T → Chain × Result x.T
  unfolding weigh_blocks set_tip
  weigh_round tipw rn (ch, t) = elim (x.round rn t) [
    | err e ↦ (ch, err (wrap "failed to read blocks from round" e))
    | ok blocks ↦ elim ch.locked [
      | true ↦ (ch, err diverges)
      | false ↦ weigh_blocks tipw 0 (sort_slice outranks blocks) (record ch { locked = true }, t)
    ]
  ]

  -- the loop over the rounds; the counter is a `uint64`
  unfoldable pub weigh_rounds : ℕ → ℕ → ℕ → Chain × x.T → Chain × Result x.T
  weigh_rounds zero tipw rn (ch, t) = (ch, err diverges)
  weigh_rounds (suc fuel) tipw rn (ch, t) = elim (leb rn (x.max_round t)) [
    | false ↦ (ch, ok t)
    | true ↦
        let (ch', res) = weigh_round tipw rn (ch, t) in
        elim res [
          | err e ↦ (ch', err e)
          | ok t' ↦ weigh_rounds fuel tipw ((rn + 1) % u64_mod) (ch', t')
        ]
  ]

  -- `Chain.weigh`
  unfoldable pub weigh : Chain → x.T → ℕ → Chain × Result x.T
  unfolding weigh_rounds weigh_round
  weigh ch t nr = elim (x.read_tip t) [
    | err e ↦ (ch, err (wrap "failed to read current tip" e))
    | ok (_, tipw) ↦ weigh_rounds (suc (x.max_round t + 1 - nr)) tipw nr (ch, t)
  ]
