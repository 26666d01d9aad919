-- ===== src/Slot/Ballot.antt =====
-- The ballot of a round (`Ballot` of exp/slot/round.go). The channel of the accepted proposal is the
-- list of what is sent on it, with a flag for its closing.
pub mod Voters
pub mod Tested
pub mod Quorum
pub mod Repeat
use dd.Base.{
  ℕ, ◌+◌, ◌%◌, Bool, true, false, Option, none, some, List, [], ◌∷◌, ◌++◌, Error, Result, ok, err,
  panic, ◌>>=◌, ◌>>◌, fail_if, not, is_some, ltb, ◌==◌, length, if◌then◌else◌,
}
use dd.Base.Bytes.{Bytes, u64_mod}
use dd.Base.Map.{Map, get, put}
use dd.Externals.{Crypto}
use dd.Slot.{
  Proposal, SlotVote, SlotMsg, voting, ProposerFilter, add_proposer, token_rank, validate_vote,
  lottery_verify, proposal_hash, or_empty, fit,
}
use dd.Slot.Voter.{Network}

-- `Ballot`
pub record Ballot : Type 0 where
  pub accepted : List Proposal
  pub closed : Bool
  pub round : ℕ
  pub votes : Map (Map (Unit {0}))
  pub pf : ProposerFilter
  pub minv : ℕ
  pub top : ℕ

-- `NewBallot`
abbrev pub new_ballot : ℕ → ℕ → Ballot
new_ballot round minv = record {
  accepted = [];
  closed = false;
  round = round;
  votes = [];
  pf = [];
  minv = minv;
  top = 0;
}

module _ ⦃c : Crypto⦄ where
  -- the proposal of a vote that is valid and whose two tokens verify; the rest are panics
  unfoldable pub check_tokens : ℕ → SlotVote → Result Proposal
  check_tokens round v = elim (validate_vote v) [
    | err _ ↦ err (panic "failed to validate vote")
    | ok _ ↦ elim v.proposal [
      | none ↦ err (panic "nil pointer")
      | some p ↦ do
        fail_if (not (lottery_verify round v.pk v.token v.proof)) (panic "invalid voter token")
        fail_if (not (lottery_verify round p.pk p.token p.proof)) (panic "invalid proposer token")
        ok p
    ]
  ]

  -- the counting of a vote for `p` of the voter `pk`, and the acceptance
  unfoldable pub count_vote : Ballot → Proposal → Bytes → Result Ballot
  count_vote b p pk =
      let id = proposal_hash p in
      let votes = put (fit 32 pk) tt (or_empty (get id b.votes)) in
      let b' = record b { votes = put id votes b.votes } in
      if length votes == (b.minv + 1) % u64_mod
      then if b.closed
        then err (panic "send on closed channel")
        else ok (record b' { accepted = b.accepted ++ p ∷ []; closed = true })
      else ok b'

  -- `Ballot.Handle`: the ballot and what is relayed
  unfoldable pub handle_vote : Network → Ballot → SlotVote → Result (Ballot × List SlotMsg)
  unfolding check_tokens count_vote
  handle_vote net b v = do
    p ← check_tokens b.round v
    fail_if (ltb (token_rank p.token) b.top)
        (panic "vote's proposal had a lower rank then an other proposa we already saw")
    let (pf, npro) = add_proposer b.pf p.pk p.token
    fail_if (ltb 1 npro) (panic "proposer already proposed a block for this round")
    fail_if (is_some (net (voting v))) (panic "failed to relay vote")
    b' ← count_vote (record b { top = token_rank p.token; pf = pf }) p v.pk
    ok (b', voting v ∷ [])
