-- ===== src/Tests/Slots.antt =====
-- Runs of a round of exp/slot/round.go: two proposals, and a ballot that needs two voters.
use dd.Base.{
  ap, ltb, if◌then◌else◌, ◌≢◌, ◌≡◌, refl, ℕ, ◌<◌, ◌≤◌, true, false, Option, none, some, List, [],
  ◌∷◌, ◌++◌, map, ok, err, panic, All, In, inl, arith, length,
}
use dd.Base.Bytes.{Bytes, bytes_eq}
use dd.State.{zeros}
use dd.State.Replay.{Distinct}
use dd.Slot.{
  Proposal, SlotVote, SlotMsg, voting, slot_genesis, slot_hash, proposal_hash, nil_slot_id, fit,
  token_rank, proposing,
}
use dd.Slot.Voter.{
  Voter, Network, new_voter, expire, cast_votes, vote_for, handle_proposal, no_result,
}
use dd.Slot.Voter.Rank.{highest, top_rank}
use dd.Slot.Voter.Handled.{eligible, handle_proposals}
use dd.Slot.Voter.Highest.{expire-casts_highest, cast_votes-refused}
use dd.Slot.Ballot.{Ballot, new_ballot, handle_vote}
use dd.Slot.Ballot.Quorum.{Counts, HasVoted, Counts-quorum}
use dd.Slot.Ballot.Repeat.{handle_vote-again}
use dd.Slot.Round.{Lottery, Draws, new_round, own_proposal}
use dd.Slot.Round.Own.{handle_proposal-own}
use dd.Tests.Memory.{crypto}

abbrev quiet : Network
quiet m = none

-- a proposal with a token of rank `n`, of a proposer
abbrev proposal : ℕ → ℕ → Proposal
proposal who n = record {
  token = zeros 31 ++ n ∷ [];
  pk = who ∷ zeros 31;
  proof = zeros 96;
  block = some (record { prev = slot_hash slot_genesis; data_of = [] });
}

abbrev arrivals : List Proposal
arrivals = proposal 1 5 ∷ proposal 2 9 ∷ proposal 3 4 ∷ []

expire-casts_highest_example :
    expire quiet (handle_proposals quiet (new_voter 1 slot_genesis) arrivals)
    ≡ ok (
      record (handle_proposals quiet (new_voter 1 slot_genesis) arrivals) {
        candidates = [];
        casted = true;
      },
      map vote_for (highest (eligible 1 slot_genesis [] arrivals)),
    )
expire-casts_highest_example = expire-casts_highest quiet 1 slot_genesis arrivals (λ m. refl)

abbrev holding : Voter
holding = record (new_voter 1 slot_genesis) { candidates = proposal 2 9 ∷ [] }

cast_votes-refused_example :
    All
      (λ m.
        (vote : SlotVote) × (m ≡ voting vote)
        × (handle_vote quiet (new_ballot 1 1) vote ≡ err (panic "failed to validate vote")))
      (cast_votes quiet holding).1
cast_votes-refused_example = cast_votes-refused quiet quiet holding (new_ballot 1 1)

-- the vote of a voter
abbrev vote_by : ℕ → SlotVote
vote_by who = record {
  token = zeros 32;
  pk = who ∷ zeros 31;
  proof = zeros 96;
  proposal = some (proposal 2 9);
}

abbrev one_vote : Ballot
one_vote = elim (handle_vote quiet (new_ballot 1 1) (vote_by 1)) [
  | ok (b, _) ↦ b
  | err _ ↦ new_ballot 1 1
]

abbrev two_votes : Ballot
two_votes = elim (handle_vote quiet one_vote (vote_by 2)) [ ok (b, _) ↦ b | err _ ↦ one_vote ]

first_counts :
    handle_vote quiet (new_ballot 1 1) (vote_by 1) ≡ ok (one_vote, voting (vote_by 1) ∷ [])
unfolding handle_vote slot_hash proposal_hash bytes_eq dd.Base.Map.get dd.Base.Map.put dd.Write.join
    dd.Slot.Ballot.check_tokens dd.Slot.Ballot.count_vote dd.Slot.add_proposer dd.Slot.validate_vote
    dd.Slot.validate_proposal dd.Slot.validate_block dd.Slot.lottery_verify dd.Block.set_bytes
first_counts = refl

second_counts : handle_vote quiet one_vote (vote_by 2) ≡ ok (two_votes, voting (vote_by 2) ∷ [])
unfolding handle_vote slot_hash proposal_hash bytes_eq dd.Base.Map.get dd.Base.Map.put dd.Write.join
    dd.Slot.Ballot.check_tokens dd.Slot.Ballot.count_vote dd.Slot.add_proposer dd.Slot.validate_vote
    dd.Slot.validate_proposal dd.Slot.validate_block dd.Slot.lottery_verify dd.Block.set_bytes
second_counts = refl

two_votes-Counts : Counts quiet 1 1 (vote_by 2 ∷ vote_by 1 ∷ []) two_votes
two_votes-Counts =
    Counts.counted (vote_by 2) (Counts.counted (vote_by 1) Counts.opened first_counts) second_counts

accepts_proposal : In (proposal 2 9) two_votes.accepted
unfolding handle_vote slot_hash proposal_hash bytes_eq dd.Base.Map.get dd.Base.Map.put dd.Write.join
    dd.Slot.Ballot.check_tokens dd.Slot.Ballot.count_vote dd.Slot.add_proposer dd.Slot.validate_vote
    dd.Slot.validate_proposal dd.Slot.validate_block dd.Slot.lottery_verify dd.Block.set_bytes
accepts_proposal = inl refl

Counts-quorum_example :
    (voters : List Bytes) × Distinct voters
    × (1 < length voters)
    × All (HasVoted 1 (vote_by 2 ∷ vote_by 1 ∷ []) (proposal_hash (proposal 2 9))) voters
    × (length two_votes.accepted ≤ 1)
Counts-quorum_example =
    Counts-quorum quiet 1 1 (vote_by 2 ∷ vote_by 1 ∷ []) two_votes (proposal 2 9) (omega arith)
      two_votes-Counts accepts_proposal

one_vote-closed : one_vote.closed ≡ false
unfolding handle_vote slot_hash proposal_hash bytes_eq dd.Base.Map.get dd.Base.Map.put dd.Write.join
    dd.Slot.Ballot.check_tokens dd.Slot.Ballot.count_vote dd.Slot.add_proposer dd.Slot.validate_vote
    dd.Slot.validate_proposal dd.Slot.validate_block dd.Slot.lottery_verify dd.Block.set_bytes
one_vote-closed = refl

two_votes-closed : two_votes.closed ≡ true
unfolding handle_vote slot_hash proposal_hash bytes_eq dd.Base.Map.get dd.Base.Map.put dd.Write.join
    dd.Slot.Ballot.check_tokens dd.Slot.Ballot.count_vote dd.Slot.add_proposer dd.Slot.validate_vote
    dd.Slot.validate_proposal dd.Slot.validate_block dd.Slot.lottery_verify dd.Block.set_bytes
two_votes-closed = refl

handle_vote-again_example :
    handle_vote quiet two_votes (vote_by 2) ≡ err (panic "send on closed channel")
handle_vote-again_example =
    handle_vote-again quiet one_vote two_votes (vote_by 2) (voting (vote_by 2) ∷ []) one_vote-closed
      second_counts two_votes-closed

abbrev member : Lottery
member = record { pk = 7 ∷ zeros 31; prove = λ m. (zeros 31 ++ 9 ∷ [], zeros 96) }

member-Draws : Draws member
member-Draws = record {
  verifies = λ m. refl;
  pk_size = refl;
  token_size = λ m. refl;
  proof_size = λ m. refl;
}

genesis_hash : bytes_eq (slot_hash slot_genesis) nil_slot_id ≡ false
unfolding slot_hash bytes_eq dd.Write.join
genesis_hash = refl

abbrev first : Bytes → ℕ
first [] = 0
first (x ∷ xs) = x

others : All (λ (p : Proposal). fit 32 p.pk ≢ fit 32 member.pk) arrivals
others = (
  λ e. omega (arith, ap first e),
  (λ e. omega (arith, ap first e), (λ e. omega (arith, ap first e), tt)),
)

handle_proposal-own_example :
    let v = handle_proposals quiet (new_voter 1 slot_genesis) arrivals in
    let top = top_rank 0 (eligible 1 slot_genesis [] arrivals) in
    let p = own_proposal (new_round member 1 slot_genesis 1) in
    let rank = token_rank p.token in
    let (v', msgs, res) = handle_proposal quiet v p in
    (msgs ≡ (if ltb rank top then [] else proposing p ∷ []))
    × (v'.candidates ≡ (
        if ltb rank top
        then v.candidates
        else if ltb top rank
        then p ∷ []
        else v.candidates ++ p ∷ []))
    × (res ≡ (
        if ltb rank top
        then record no_result { proposal_rank_not_higher = true }
        else record no_result { relay_failure = quiet (proposing p) }))
handle_proposal-own_example =
    handle_proposal-own quiet member 1 1 slot_genesis arrivals member-Draws genesis_hash others
