-- ===== src/Chain/Append.antt =====
-- Appending a block (`Append` of exp/onl/chain.go): the checks up to the write of the block, then
-- the weighing, the votes and the commit.
use dd.Base.{
  ℕ, ◌+◌, ◌%◌, Bool, true, false, not, Option, none, some, List, [], ◌∷◌, Result, ok, err, ◌>>=◌,
  ◌>>◌, invalid_signature, zero_round, block_exist, block_not_exist, stable_not_in_chain,
  timestamp_not_after_prev, round_nr_not_after_prev, state_reconstruction, no_token_pk,
  invalid_token, zero_rank, append_conflict, badger_conflict, wrap, wrapped, or_panic, fail_if, ltb,
  leb, if◌then◌else◌,
}
use dd.Base.Bytes.{u64_mod, bytes_eq}
use dd.Base.Int.{is_positive}
use dd.Base.Map.{put}
use dd.Externals.{Crypto, Radix}
use dd.Kv.{Pk, read_stake}
use dd.Write.{Write, has_deposit_for, total_deposit}
use dd.State.{State, apply, view}
use dd.Block.{Block, BlockId, block_hash, verify_signature, verify_token, rank}
use dd.Stakes.{new_stakes}
use dd.Store.{Entry, StoreTx}
use dd.Chain.{Chain}
use dd.Chain.Walk.{walk, walk_fuel, state_at}
use dd.Chain.Weigh.{weigh}

-- whether one of the writes has a deposit for `pk`
unfoldable pub any_deposit : Pk → List Write → Result Bool
any_deposit pk [] = ok false
any_deposit pk (w ∷ ws) = do
  d ← or_panic (has_deposit_for w pk) "index out of range"
  rest ← any_deposit pk ws
  ok (if d then true else rest)

-- what the walk of `Append` remembers: the block before, and the oldest block of the walk with a
-- deposit for the proposer
pub record Found : Type 0 where
  pub prev : Option Entry
  pub stable : Option Block

-- The first part of `Append` hands these on: the block with the commit times of its writes, its
-- stakes and rank, and the stake of the proposer.
pub record Accepted : Type 0 where
  pub entry : Entry
  pub stake : ℕ

module _ ⦃x : StoreTx⦄ where
  -- the callback of that walk
  unfoldable pub find : Block → BlockId → Entry → Found × x.T → Result (Found × x.T)
  find b id entry (found, t) = do
    deposit ← any_deposit b.pk entry.block.writes
    ok (
      record {
        prev = if bytes_eq b.prev id then some entry else found.prev;
        stable = if deposit then some entry.block else found.stable;
      },
      t,
    )

  -- the callback of `Chain.vote`
  unfoldable pub cast : Pk → ℕ → BlockId → Entry → Unit {0} × x.T → Result (Unit {0} × x.T)
  cast pk stake id entry (u, t) = do
    t' ←
        x.write
          (record entry {
            stakes = record entry.stakes { votes = put pk stake entry.stakes.votes };
          })
          t
    ok (u, t')

  -- `Chain.vote`
  unfoldable pub vote : BlockId → x.T → BlockId → Pk → ℕ → Result x.T
  unfolding cast
  vote gen t id pk stake = do
    res ← wrapped "failed to walk" (walk gen (cast pk stake) (walk_fuel id) id (tt, t))
    ok res.1

module _ ⦃r : Radix⦄ where
  -- the loop that applies the writes of the block and sums their deposits
  unfoldable pub apply_writes : State → List Write → ℕ → Result (State × List Write × ℕ)
  apply_writes s [] deposit = ok (s, [], deposit)
  apply_writes s (w ∷ ws) deposit =
      let (s', w', res) = apply s w false in
      elim res [
        | err e ↦ err e
        | ok _ ↦ (do
          d ← or_panic (total_deposit w') "index out of range"
          rest ← apply_writes s' ws ((deposit + d) % u64_mod)
          ok (rest.0, w' ∷ rest.1, rest.2))
      ]

  -- the same loop, for what it leaves in the writes: it stops with the first that fails
  unfoldable pub stamp_writes : State → List Write → List Write
  stamp_writes s [] = []
  stamp_writes s (w ∷ ws) =
      let (s', w', res) = apply s w false in
      elim res [ err _ ↦ w' ∷ ws | ok _ ↦ w' ∷ stamp_writes s' ws ]

-- a commit that lost a race has an error of its own
abbrev pub commit_result {ℓ} : {A : Type ℓ} → Result A → Result A
commit_result (ok t) = ok t
commit_result (err badger_conflict) = err append_conflict
commit_result (err e) = err (wrap "failed to commit append tx" e)

module _ ⦃c : Crypto⦄ ⦃r : Radix⦄ ⦃x : StoreTx⦄ where
  -- the block must not be in the store: any other answer of `Read` is taken for "exists"
  unfoldable pub check_new : BlockId → x.T → Result (Unit {0})
  check_new id t = elim (x.read id t) [
    | ok _ ↦ err block_exist
    | err block_not_exist ↦ ok tt
    | err _ ↦ err block_exist
  ]

  -- The checks of `Append` on the ancestry: the proposer's deposit, the time and the round.
  unfoldable pub check_ancestry : Chain → x.T → Block → Result (Entry × Block)
  unfolding find
  check_ancestry ch t b = do
    res ← wrapped "failed to walk prev chain" (
        walk ch.genesis_id (find b) (walk_fuel b.prev) b.prev
          (record { prev = none; stable = none }, t))
    stable ← elim res.0.stable [ none ↦ err stable_not_in_chain | some bb ↦ ok bb ]
    prev ← or_panic res.0.prev "nil pointer"
    fail_if (leb b.timestamp prev.block.timestamp) timestamp_not_after_prev
    fail_if (leb b.round prev.block.round) round_nr_not_after_prev
    ok (prev, stable)

  -- its checks against the state of the block before: the stake, the token and the rank
  unfoldable pub check_rank : Chain → x.T → Block → Block → Result (State × ℕ)
  check_rank ch t b stable = do
    st ← elim (state_at ch t b.prev) [ err _ ↦ err state_reconstruction | ok (_, s) ↦ ok s ]
    let (stake, tpk) = view st (read_stake b.pk)
    key ← elim tpk [ none ↦ err no_token_pk | some k ↦ ok k ]
    fail_if (not (verify_token b key (block_hash stable))) invalid_token
    fail_if (not (is_positive (rank b stake))) zero_rank
    ok (st, stake)

  -- all checks of `Append` but those of the writes
  unfoldable pub vet : Chain → x.T → Block → Result (Entry × State × ℕ)
  unfolding check_new check_ancestry check_rank
  vet ch t b = do
    fail_if (not (verify_signature b)) invalid_signature
    fail_if (ltb b.round 1) zero_round
    check_new (block_hash b) t
    found ← check_ancestry ch t b
    ranked ← check_rank ch t b found.1
    ok (found.0, ranked.0, ranked.1)

  -- the writes, and what is stored of the block
  unfoldable pub accept_writes : Block → Entry × State × ℕ → Result Accepted
  unfolding apply_writes
  accept_writes b (prev, st, stake) = do
    res ← apply_writes st b.writes 0
    ok (record {
      entry = record {
        block = record b { writes = res.1 };
        stakes = new_stakes ((prev.stakes.sum + res.2) % u64_mod);
        rank = rank b stake;
      };
      stake = stake;
    })

  -- the first part of `Append`
  unfoldable pub check : Chain → x.T → Block → Result Accepted
  unfolding vet accept_writes
  check ch t b = do v ← vet ch t b; accept_writes b v

  -- the second part: the vote for the ancestry and the commit, after the weighing
  unfoldable pub finish : Chain → x.T → Block → ℕ → Result x.T
  unfolding vote
  finish ch t b stake = do
    t' ← wrapped "failed to vote on ancestory" (vote ch.genesis_id t b.prev b.pk stake)
    commit_result (x.commit t')

  -- `Chain.Append` in a transaction `t` on the store: the chain in memory, and what the store holds
  -- after the commit
  unfoldable pub append : Chain → x.T → Block → Chain × Result x.T
  unfolding check finish
  append ch t b = elim (check ch t b) [
    | err e ↦ (ch, err e)
    | ok acc ↦ elim (x.write acc.entry t) [
      | err e ↦ (ch, err (wrap "failed to write block" e))
      | ok t1 ↦
          let (ch', res) = weigh ch t1 b.round in
          elim res [
            | err e ↦ (ch', err (wrap "failed to weigh rounds" e))
            | ok t2 ↦ (ch', finish ch' t2 b acc.stake)
          ]
    ]
  ]

  -- The block of the caller after `Append`: the writes that were applied have their commit times.
  unfoldable pub block_after : Chain → x.T → Block → Block
  unfolding vet stamp_writes
  block_after ch t b = elim (vet ch t b) [
    | err _ ↦ b
    | ok (_, st, _) ↦ record b { writes = stamp_writes st b.writes }
  ]
