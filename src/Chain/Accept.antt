-- ===== src/Chain/Accept.antt =====
-- What a block has passed when `Append` writes it (exp/onl/chain.go).
use mathlib.Core.Path.{subst}
use dd.Base.{
  Returns, ◌≡◌, refl, ap, ℕ, ◌+◌, ◌%◌, ◌<◌, ◌≤◌, true, not, none, some, List, Result, ok, err,
  >>=-eq-ok, wrapped, or_panic, fail_if, block_not_exist, invalid_signature, zero_round,
  invalid_token, zero_rank, timestamp_not_after_prev, round_nr_not_after_prev, state_reconstruction,
  no_token_pk, stable_not_in_chain, arith, leb, ltb, Result-cases, inl, inr,
}
use dd.Base.Bytes.{Bytes, u64_mod}
use dd.Base.Int.{is_positive}
use dd.Externals.{Crypto, Radix}
use dd.Kv.{read_stake}
use dd.Write.{Write}
use dd.State.{State, view}
use dd.Block.{Block, BlockId, block_hash, verify_signature, verify_token, rank}
use dd.Stakes.{new_stakes}
use dd.Store.{Entry, StoreTx}
use dd.Store.Laws.{wrapped-eq-ok}
use dd.Chain.{Chain}
use dd.Chain.Walk.{walk, walk_fuel, state_at}
use dd.Chain.Append.{
  accept_writes, check_rank, Accepted, Found, find, any_deposit, apply_writes, check_new,
  check_ancestry, vet, check, append,
}
use dd.Base.Inversion.{
  some-eq-ok, or_panic-eq-ok, second-eq-ok, from_one, above, fail_if-eq-ok, fail_if-eq-ok_true,
}
use dd.Chain.Found.{walk-keeps, IsFound, find-IsFound}

-- What a block has passed that `Append` accepts, and what is stored of it.
pub record Passed ⦃c : Crypto⦄ ⦃r : Radix⦄ ⦃x : StoreTx⦄ (ch : Chain) (t : x.T) (b : Block)
    (acc : Accepted) : Type 1 where
  -- it is signed, is of no round 0, and is not in the store
  pub signed : verify_signature b ≡ true
  pub later : 1 ≤ b.round
  pub fresh : x.read (block_hash b) t ≡ err block_not_exist
  -- the block before is in the store, of an earlier time and round
  pub before : Entry
  pub before_read : x.read b.prev t ≡ ok before
  pub before_time : before.block.timestamp < b.timestamp
  pub before_round : before.block.round < b.round
  -- a block of the store has a deposit for the proposer
  pub stable : Block
  pub stable_read : (id : BlockId) × (e : Entry) × (x.read id t ≡ ok e) × (e.block ≡ stable)
  pub stable_deposit : any_deposit b.pk stable.writes ≡ ok true
  -- in the state before the block, the proposer has a stake and a key, with which its token on
  -- the stable block verifies; the rank is of that stake
  pub tip : BlockId
  pub state : State
  pub state_read : state_at ch t b.prev ≡ ok (tip, state)
  pub key : Bytes
  pub stake_read : view state (read_stake b.pk) ≡ (acc.stake, some key)
  pub token : verify_token b key (block_hash stable) ≡ true
  pub rank_positive : is_positive (rank b acc.stake) ≡ true
  -- its writes apply to that state; they are stored with their commit times
  pub after : State
  pub writes : List Write
  pub deposit : ℕ
  pub applied : apply_writes state b.writes 0 ≡ ok (after, writes, deposit)
  pub entry : acc.entry ≡ record {
    block = record b { writes = writes };
    stakes = new_stakes ((before.stakes.sum + deposit) % u64_mod);
    rank = rank b acc.stake;
  }

module _ ⦃c : Crypto⦄ ⦃r : Radix⦄ ⦃x : StoreTx⦄ where
  check_new-fresh :
      (id : BlockId) (t : x.T) → check_new id t ≡ ok tt → x.read id t ≡ err block_not_exist
  unfolding check_new
  check_new-fresh id t h = ground arith

  check_ancestry-IsFound :
      (ch : Chain) (t : x.T) (b : Block) (p : Entry) (s : Block)
      → check_ancestry ch t b ≡ ok (p, s)
      → (x.read b.prev t ≡ ok p)
        × (p.block.timestamp < b.timestamp)
        × (p.block.round < b.round)
        × ((id : BlockId) × (e : Entry) × (x.read id t ≡ ok e) × (e.block ≡ s))
        × (any_deposit b.pk s.writes ≡ ok true)
  unfolding check_ancestry
  check_ancestry-IsFound ch t b p s h =
      let start : Found = record { prev = none; stable = none } in
      let (res, walked, h1) =
        >>=-eq-ok
          (wrapped "failed to walk prev chain"
            (walk ch.genesis_id (find b) (walk_fuel b.prev) b.prev (start, t)))
          _ h in
      let (s', found, h2) =
        >>=-eq-ok (elim res.0.stable [ none ↦ err stable_not_in_chain | some bb ↦ ok bb ]) _ h1 in
      let (p', known, h3) = >>=-eq-ok (or_panic res.0.prev "nil pointer") _ h2 in
      let (u, time, h4) =
        >>=-eq-ok (fail_if (leb b.timestamp p'.block.timestamp) timestamp_not_after_prev) _ h3 in
      let (v, round, h5) =
        >>=-eq-ok (fail_if (leb b.round p'.block.round) round_nr_not_after_prev) _ h4 in
      let kept =
        walk-keeps (IsFound b t) ch.genesis_id (find b) (find-IsFound b t) (walk_fuel b.prev) b.prev
          (start, t) res (record { same = refl; prev = λ v k. cc; stable = λ v k. cc })
          (wrapped-eq-ok _ _ walked) in
      let found_s = kept.stable s' (some-eq-ok stable_not_in_chain res.0.stable found) in
      subst
        (λ out.
          Returns
            (λ (q : Entry × Block).
              (x.read b.prev t ≡ ok q.0)
              × (q.0.block.timestamp < b.timestamp)
              × (q.0.block.round < b.round)
              × ((id : BlockId) × (e : Entry) × (x.read id t ≡ ok e) × (e.block ≡ q.1))
              × (any_deposit b.pk q.1.writes ≡ ok true))
            out)
        h5
        (
          kept.prev p' (or_panic-eq-ok res.0.prev "nil pointer" known),
          above (fail_if-eq-ok _ timestamp_not_after_prev time),
          above (fail_if-eq-ok _ round_nr_not_after_prev round),
          found_s.0,
          found_s.1,
        )

  -- the state before the block, or the error of `Append` for it
  abbrev prev_state : Chain → x.T → Block → Result State
  prev_state ch t b = elim (state_at ch t b.prev) [
    | err _ ↦ err state_reconstruction
    | ok (_, s) ↦ ok s
  ]

  prev_state-eq-ok :
      (ch : Chain) (t : x.T) (b : Block) (s : State)
      → prev_state ch t b ≡ ok s
      → (tip : BlockId) × (state_at ch t b.prev ≡ ok (tip, s))
  prev_state-eq-ok ch t b s h = second-eq-ok state_reconstruction (state_at ch t b.prev) h

  pub check-Passed :
      (ch : Chain) (t : x.T) (b : Block) (acc : Accepted)
      → check ch t b ≡ ok acc
      → Passed ch t b acc
  unfolding check vet check_rank accept_writes
  check-Passed ch t b acc h =
      let (v, vetted, written) = >>=-eq-ok (vet ch t b) _ h in
      let (u1, signed, h1) =
        >>=-eq-ok (fail_if (not (verify_signature b)) invalid_signature) _ vetted in
      let (u2, round, h2) = >>=-eq-ok (fail_if (ltb b.round 1) zero_round) _ h1 in
      let (u3, new, h3) = >>=-eq-ok (check_new (block_hash b) t) _ h2 in
      let (found, ancestry, h4) = >>=-eq-ok (check_ancestry ch t b) _ h3 in
      let facts = check_ancestry-IsFound ch t b found.0 found.1 ancestry in
      let (q, ranks, h9) = >>=-eq-ok (check_rank ch t b found.1) _ h4 in
      let (st, state, h5) = >>=-eq-ok (prev_state ch t b) _ ranks in
      let (key, pk, h6) =
        >>=-eq-ok (elim (view st (read_stake b.pk)).1 [ none ↦ err no_token_pk | some k ↦ ok k ]) _
          h5 in
      let stake = (view st (read_stake b.pk)).0 in
      let (u4, token, h7) =
        >>=-eq-ok (fail_if (not (verify_token b key (block_hash found.1))) invalid_token) _ h6 in
      let (u5, ranked, h8) =
        >>=-eq-ok (fail_if (not (is_positive (rank b stake))) zero_rank) _ h7 in
      let tip = prev_state-eq-ok ch t b st state in
      subst
        (λ out.
          Returns (λ (w : Entry × State × ℕ). accept_writes b w ≡ ok acc → Passed ch t b acc) out)
        h9
        (subst
          (λ out.
            Returns
              (λ (w : State × ℕ). accept_writes b (found.0, w.0, w.1) ≡ ok acc → Passed ch t b acc)
              out)
          h8
          (λ accepted.
            let (res, applied, stored) = >>=-eq-ok (apply_writes st b.writes 0) _ accepted in
            subst (λ out. Returns (Passed ch t b) out) stored
              (record {
                signed = fail_if-eq-ok_true _ invalid_signature signed;
                later = from_one b.round (fail_if-eq-ok _ zero_round round);
                fresh = check_new-fresh (block_hash b) t new;
                before = found.0;
                before_read = facts.0;
                before_time = facts.1;
                before_round = facts.2;
                stable = found.1;
                stable_read = facts.3;
                stable_deposit = facts.4;
                tip = tip.0;
                state = st;
                state_read = tip.1;
                key = key;
                stake_read = ap (λ k. (stake, k)) (some-eq-ok no_token_pk _ pk);
                token = fail_if-eq-ok_true _ invalid_token token;
                rank_positive = fail_if-eq-ok_true _ zero_rank ranked;
                after = res.0;
                writes = res.1;
                deposit = res.2;
                applied = applied;
                entry = refl;
              })))
        written

  -- A block that `Append` accepts has passed every check: its signature, its round and time, that
  -- it is new, the deposit of its proposer in a block of the store, the token and the rank by
  -- the stake and the key in the state of the block before, and that its writes apply there.
  pub append-accepted :
      (ch : Chain) (t : x.T) (b : Block) (u : x.T)
      → (append ch t b).1 ≡ ok u
      → (acc : Accepted) × (check ch t b ≡ ok acc) × Passed ch t b acc
  unfolding append
  append-accepted ch t b u h = elim (Result-cases (check ch t b)) [
    | inl (acc, passed) ↦ (acc, passed, check-Passed ch t b acc passed)
    | inr (e, failed) ↦ cc (rw (failed, append) at h)
  ]
