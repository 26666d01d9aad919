-- ===== src/Slot/Voter.antt =====
-- The voter of a round (`Voter2` of exp/slot/round.go). The network is what `Write` answers to a
-- message; an operation returns the messages that it has written, in order.
pub mod Rank
pub mod Handled
pub mod Highest
use dd.Base.{
  ℕ, Bool, true, false, Option, none, some, List, [], ◌∷◌, ◌++◌, Error, Result, ok, err, panic, not,
  is_some, ltb, ◌==◌, if◌then◌else◌,
}
use dd.Base.Bytes.{Bytes, bytes_eq}
use dd.Externals.{Crypto}
use dd.Slot.{
  SlotBlock, Proposal, SlotVote, SlotMsg, proposing, voting, ProposerFilter, add_proposer,
  token_rank, validate_proposal, lottery_verify, slot_hash,
}

-- `Voter2`; `last` is the block of the proposal that won the round before
pub record Voter : Type 0 where
  pub last : SlotBlock
  pub round : ℕ
  pub pf : ProposerFilter
  pub top : ℕ
  pub candidates : List Proposal
  pub casted : Bool

-- `NewVoter2`
abbrev pub new_voter : ℕ → SlotBlock → Voter
new_voter round last = record {
  last = last;
  round = round;
  pf = [];
  top = 0;
  candidates = [];
  casted = false;
}

-- `ProposalResult`
pub record ProposalResult : Type 0 where
  pub syntax_invalid : Bool
  pub syntax_validation_err : Option Error
  pub proposal_token_invalid : Bool
  pub unexpected_prev : Bool
  pub proposer_already_proposed : Bool
  pub proposal_rank_not_higher : Bool
  pub relay_failure : Option Error
  pub immediate_cast : Bool
  pub immediate_cast_failure : Option Error

abbrev pub no_result : ProposalResult
no_result = record {
  syntax_invalid = false;
  syntax_validation_err = none;
  proposal_token_invalid = false;
  unexpected_prev = false;
  proposer_already_proposed = false;
  proposal_rank_not_higher = false;
  relay_failure = none;
  immediate_cast = false;
  immediate_cast_failure = none;
}

abbrev pub Network : Type 0
Network = SlotMsg → Option Error

-- The vote for a candidate: it has no token, key or proof.
abbrev pub vote_for : Proposal → SlotMsg
vote_for p = voting (record { token = []; pk = []; proof = []; proposal = some p })

-- the loop of `cast`: what is written, and the error of the last write
unfoldable pub cast_all : Network → Option Error → List Proposal → List SlotMsg × Option Error
cast_all net e [] = ([], e)
cast_all net e (p ∷ ps) =
    let (msgs, last) = cast_all net (net (vote_for p)) ps in (vote_for p ∷ msgs, last)

-- `Voter2.cast`
unfoldable pub cast_votes : Network → Voter → Voter × List SlotMsg × Option Error
unfolding cast_all
cast_votes net v =
    let (msgs, e) = cast_all net none v.candidates in
    (if is_some e then v else record v { candidates = [] }, msgs, e)

-- the goroutine of `NewVoter2`, once the timer has expired
unfoldable pub expire : Network → Voter → Result (Voter × List SlotMsg)
unfolding cast_votes
expire net v =
    let (v', msgs, e) = cast_votes net v in
    elim e [
      | none ↦ ok (record v' { casted = true }, msgs)
      | some _ ↦ err (panic "failed to cast after timer expired")
    ]

-- the candidates and the top with a proposal of rank `rank`; none if others rank higher
unfoldable pub take_candidate : Voter → Proposal → ℕ → Option Voter
take_candidate v p rank =
    if ltb v.top rank
    then some (record v { candidates = p ∷ []; top = rank })
    else if rank == v.top
    then some (record v { candidates = v.candidates ++ p ∷ [] })
    else none

-- relaying a proposal that was taken, and casting at once after the timeout
unfoldable pub relay_proposal : Network → Voter → Proposal → Voter × List SlotMsg × ProposalResult
unfolding cast_votes
relay_proposal net v p =
    let res = record no_result { relay_failure = net (proposing p) } in
    if not v.casted
    then (v, proposing p ∷ [], res)
    else let (v', msgs, e) = cast_votes net v in
      (v', proposing p ∷ msgs, record res { immediate_cast = true; immediate_cast_failure = e })

module _ ⦃c : Crypto⦄ where
  -- what `Voter2.Handle` checks before it looks at the proposer and at the rank
  unfoldable pub admit_proposal : Voter → Proposal → Option ProposalResult
  admit_proposal v p = elim (validate_proposal p) [
    | err e ↦ some (record no_result { syntax_invalid = true; syntax_validation_err = some e })
    | ok _ ↦
        if not (lottery_verify v.round p.pk p.token p.proof)
        then some (record no_result { proposal_token_invalid = true })
        else elim p.block [
          -- a nil block is invalid
          | none ↦ none
          | some b ↦
              if not (bytes_eq b.prev (slot_hash v.last))
              then some (record no_result { unexpected_prev = true })
              else none
        ]
  ]

  -- `Voter2.Handle`
  unfoldable pub handle_proposal :
      Network → Voter → Proposal → Voter × List SlotMsg × ProposalResult
  unfolding admit_proposal take_candidate relay_proposal
  handle_proposal net v p = elim (admit_proposal v p) [
    | some res ↦ (v, [], res)
    | none ↦
        let (pf, npro) = add_proposer v.pf p.pk p.token in
        let v' = record v { pf = pf } in
        if ltb 1 npro
        then (v', [], record no_result { proposer_already_proposed = true })
        else elim (take_candidate v' p (token_rank p.token)) [
          | none ↦ (v', [], record no_result { proposal_rank_not_higher = true })
          | some v'' ↦ relay_proposal net v'' p
        ]
  ]
