-- ===== src/Slot/Round.antt =====
-- A member's round (`Round` and `Lottery` of exp/slot/round.go): the tickets it draws, its own
-- proposal, the messages it handles, and the round that follows an accepted proposal. The channels
-- and the timer are the order in which the functions are called.
pub mod Own
use dd.Base.{
  ◌≡◌, ℕ, ◌+◌, ◌%◌, true, false, Option, none, some, List, [], ◌∷◌, Result, ok, ◌>>=◌, arith,
  length,
}
use dd.Base.Bytes.{Bytes, bytes_eq, bytes_eq_refl, u64_mod}
use dd.Externals.{Crypto}
use dd.Slot.{
  SlotBlock, Proposal, SlotMsg, proposing, voting, slot_hash, le64, nil_slot_id, lottery_verify,
  validate_proposal, validate_block,
}
use dd.Slot.Voter.{Voter, Network, new_voter, handle_proposal, admit_proposal}
use dd.Slot.Ballot.{Ballot, new_ballot, handle_vote}

-- `Lottery`: the public key, and `vrf.Prove` with the secret key
pub record Lottery : Type 0 where
  pub pk : Bytes
  pub prove : Bytes → Bytes × Bytes

-- `Lottery.Draw`: the token, the proof and the key
unfoldable pub draw : Lottery → ℕ → Bytes × Bytes × Bytes
draw lt round = let (token, proof) = lt.prove (le64 round) in (token, proof, lt.pk)

-- `Round`; `last` is the block of the winning proposal of the round before
pub record Round : Type 0 where
  pub num : ℕ
  pub minv : ℕ
  pub last : SlotBlock
  pub ballot : Ballot
  pub voter : Voter
  pub token : Bytes
  pub proof : Bytes
  pub pk : Bytes

-- `NewRound`, up to its goroutine
unfoldable pub new_round : Lottery → ℕ → SlotBlock → ℕ → Round
unfolding draw
new_round lt num last minv =
    let (token, proof, pk) = draw lt num in
    record {
      num = num;
      minv = minv;
      last = last;
      ballot = new_ballot num minv;
      voter = new_voter num last;
      token = token;
      proof = proof;
      pk = pk;
    }

module _ ⦃c : Crypto⦄ where
  -- what the goroutine of `NewRound` does with a message
  unfoldable pub handle_message : Network → Round → SlotMsg → Result (Round × List SlotMsg)
  handle_message net r (proposing p) =
      let (v, msgs, _) = handle_proposal net r.voter p in ok (record r { voter = v }, msgs)
  handle_message net r (voting vote) = do
    res ← handle_vote net r.ballot vote
    ok (record r { ballot = res.0 }, res.1)

  -- the proposal that `Round.Run` writes
  unfoldable pub own_proposal : Round → Proposal
  own_proposal r = record {
    token = r.token;
    pk = r.pk;
    proof = r.proof;
    block = some (record { prev = slot_hash r.last; data_of = r.pk });
  }

  -- The rest of `Round.Run`: the first proposal that the ballot accepts makes the next round, unless
  -- the context is done first, which is none.
  unfoldable pub run_round : Lottery → Round → Option Round
  unfolding new_round
  run_round lt r = elim r.ballot.accepted [
    | [] ↦ none
    | p ∷ _ ↦ elim p.block [
      | none ↦ none
      | some b ↦ some (new_round lt ((r.num + 1) % u64_mod) b r.minv)
    ]
  ]

  -- what `vrf.Prove` returns has its sizes and verifies
  pub record Draws (lt : Lottery) : Type 0 where
    pub verifies : (m : Bytes) → c.vrf_verify lt.pk m (lt.prove m).0 (lt.prove m).1 ≡ true
    pub pk_size : length lt.pk ≡ 32
    pub token_size : (m : Bytes) → length (lt.prove m).0 ≡ 32
    pub proof_size : (m : Bytes) → length (lt.prove m).1 ≡ 96
