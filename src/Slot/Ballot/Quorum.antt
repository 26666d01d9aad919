-- ===== src/Slot/Ballot/Quorum.antt =====
-- What the ballot of a round accepts (`Ballot` of exp/slot/round.go).
use dd.Base.{
  ◌≡◌, refl, ap, sym, ◌∙◌, ◌⊎◌, inl, inr, ℕ, ◌+◌, ◌%◌, ◌≤◌, ◌<◌, true, false, some, List, [], ◌∷◌,
  ◌++◌, ok, All, All-append, In, arith, length,
}
use dd.Base.Bytes.{Bytes, u64_mod}
use dd.Base.Map.{get, has, put}
use dd.Externals.{Crypto}
use dd.Write.{keys_of}
use dd.State.Replay.{Distinct}
use dd.Slot.{Proposal, SlotVote, SlotMsg, lottery_verify, proposal_hash, fit}
use dd.Slot.Voter.{Network}
use dd.Slot.Ballot.{Ballot, new_ballot, check_tokens, count_vote, handle_vote}
use dd.Slot.Ballot.Voters.{
  voters_of, All-map, All-In, length-keys, All-has, after-longer, after-own, after-Distinct,
  after-voted,
}
use dd.Slot.Ballot.Tested.{tested, handle_vote-Tested}

module _ ⦃c : Crypto⦄ where
  -- a vote among `vs` for the proposal `id` by the voter, whose token was drawn for the round
  pub record HasVoted (round : ℕ) (vs : List SlotVote) (id voter : Bytes) : Type 0 where
    pub vote : SlotVote
    pub cast : In vote vs
    pub proposal : Proposal
    pub is_for : vote.proposal ≡ some proposal
    pub has_id : proposal_hash proposal ≡ id
    pub by : fit 32 vote.pk ≡ voter
    pub drawn : lottery_verify round vote.pk vote.token vote.proof ≡ true

  -- The ballots of a round after the votes `vs`, the latest one first, none of which was a panic.
  pub data Counts (net : Network) (round minv : ℕ) : List SlotVote → Ballot → Type 0 where
    opened : Counts net round minv [] (new_ballot round minv)
    counted :
        {vs : List SlotVote} {b b' : Ballot} {msgs : List SlotMsg} (v : SlotVote)
        → Counts net round minv vs b
        → handle_vote net b v ≡ ok (b', msgs)
        → Counts net round minv (v ∷ vs) b'

  record IsCounted (round minv : ℕ) (vs : List SlotVote) (b : Ballot) : Type 0 where
    same_round : b.round ≡ round
    same_minv : b.minv ≡ minv
    voted : (id k : Bytes) → has k (voters_of b id) ≡ true → HasVoted round vs id k
    distinct : (id : Bytes) → Distinct (keys_of (voters_of b id))
    quorum : All (λ p. minv < length (voters_of b (proposal_hash p))) b.accepted
    at_most_one : length b.accepted ≤ 1
    none_yet : b.closed ≡ false → b.accepted ≡ []

  count_vote-eq-ok :
      (b b' : Ballot) (p : Proposal) (pk : Bytes)
      → count_vote b p pk ≡ ok b'
      → (b'.votes
          ≡ put (proposal_hash p) (put (fit 32 pk) tt (voters_of b (proposal_hash p))) b.votes)
        × (b'.round ≡ b.round)
        × (b'.minv ≡ b.minv)
        × (((b'.accepted ≡ b.accepted) × (b'.closed ≡ b.closed))
            ⊎ ((b.closed ≡ false)
                × (b'.closed ≡ true)
                × (b'.accepted ≡ b.accepted ++ p ∷ [])
                × (length (put (fit 32 pk) tt (voters_of b (proposal_hash p)))
                    ≡ (b.minv + 1) % u64_mod)))
  unfolding count_vote
  count_vote-eq-ok b b' p pk h = ground arith

  check_tokens-eq-ok :
      (round : ℕ) (v : SlotVote) (p : Proposal)
      → check_tokens round v ≡ ok p
      → (v.proposal ≡ some p) × (lottery_verify round v.pk v.token v.proof ≡ true)
  unfolding check_tokens
  check_tokens-eq-ok round v p h = ground arith

  HasVoted-later :
      (round : ℕ) (vs : List SlotVote) (v : SlotVote) (id k : Bytes)
      → HasVoted round vs id k
      → HasVoted round (v ∷ vs) id k
  HasVoted-later round vs v id k h = record {
    vote = h.vote;
    cast = inr h.cast;
    proposal = h.proposal;
    is_for = h.is_for;
    has_id = h.has_id;
    by = h.by;
    drawn = h.drawn;
  }

  handle_vote-IsCounted :
      (net : Network) (round minv : ℕ) (vs : List SlotVote) (b b' : Ballot) (v : SlotVote)
      (msgs : List SlotMsg)
      → minv + 1 < u64_mod
      → IsCounted round minv vs b
      → handle_vote net b v ≡ ok (b', msgs)
      → IsCounted round minv (v ∷ vs) b'
  handle_vote-IsCounted net round minv vs b b' v msgs small i h =
      let (p, t, done) = handle_vote-Tested net b b' v msgs h in
      let (is_for, drawn) = check_tokens-eq-ok b.round v p t.checked in
      let (votes, same_round, same_minv, outcome) = count_vote-eq-ok (tested b p) b' p v.pk done in
      let kept : All (λ q. minv < length (voters_of b' (proposal_hash q))) b.accepted =
        All-map _ _
          (λ q more. omega (
            arith,
            more,
            after-longer b b' (proposal_hash p) (fit 32 v.pk) votes (proposal_hash q),
          ))
          b.accepted i.quorum in
      record {
        same_round = same_round ∙ i.same_round;
        same_minv = same_minv ∙ i.same_minv;
        voted = λ id k has_k.
            elim (after-voted b b' (proposal_hash p) (fit 32 v.pk) votes id k has_k) [
              | inl (is, own) ↦ record {
                vote = v;
                cast = inl refl;
                proposal = p;
                is_for = is_for;
                has_id = is;
                by = own;
                drawn = rw (← i.same_round) drawn;
              }
              | inr before ↦ HasVoted-later round vs v id k (i.voted id k before)
            ];
        distinct = after-Distinct b b' (proposal_hash p) (fit 32 v.pk) votes i.distinct;
        quorum = elim outcome [
          | inl (same, _) ↦ rw same kept
          | inr (_, _, more, count) ↦ rw more (
              All-append _ b.accepted (p ∷ []) kept (
                omega (
                  arith,
                  count,
                  i.same_minv,
                  ap length (after-own b b' (proposal_hash p) (fit 32 v.pk) votes),
                ),
                tt,
              ))
        ];
        at_most_one = elim outcome [
          | inl (same, _) ↦ rw same i.at_most_one
          | inr (was_open, _, more, _) ↦ rw (more, i.none_yet was_open) (omega arith)
        ];
        none_yet = λ still_open. elim outcome [
          | inl (same, closed) ↦ same ∙ i.none_yet (sym closed ∙ still_open)
          | inr (_, closed, _, _) ↦ absurd (ground arith)
        ];
      }

  Counts-IsCounted :
      (net : Network) (round minv : ℕ) (vs : List SlotVote) (b : Ballot)
      → minv + 1 < u64_mod
      → Counts net round minv vs b
      → IsCounted round minv vs b
  Counts-IsCounted net round minv _ _ small Counts.opened = record {
    same_round = refl;
    same_minv = refl;
    voted = λ id k h. absurd (unfold get has in ground arith);
    distinct = λ id. unfold get in tt;
    quorum = tt;
    at_most_one = omega arith;
    none_yet = λ _. refl;
  }
  Counts-IsCounted net round minv _ b' small
        (Counts.counted {vs = vs} {b = b} {msgs = msgs} v n h) =
      handle_vote-IsCounted net round minv vs b b' v msgs small
        (Counts-IsCounted net round minv vs b small n) h

  accepted-quorum :
      (round minv : ℕ) (vs : List SlotVote) (b : Ballot) (p : Proposal)
      → IsCounted round minv vs b
      → In p b.accepted
      → minv < length (voters_of b (proposal_hash p))
  accepted-quorum round minv vs b p i inside =
      All-In (λ q. minv < length (voters_of b (proposal_hash q))) b.accepted p i.quorum inside

  -- A ballot accepts at most one proposal, and only with the votes of more than `minv` different
  -- voters: after any votes that are handled without a panic, a proposal that has been accepted has
  -- that many distinct voters, and each of them has among the votes one for that proposal, by its
  -- hash, with a token that was drawn for the round. The number `minv` is below the last word.
  pub Counts-quorum :
      (net : Network) (round minv : ℕ) (vs : List SlotVote) (b : Ballot) (p : Proposal)
      → minv + 1 < u64_mod
      → Counts net round minv vs b
      → In p b.accepted
      → (voters : List Bytes) × Distinct voters
        × (minv < length voters)
        × All (HasVoted round vs (proposal_hash p)) voters
        × (length b.accepted ≤ 1)
  Counts-quorum net round minv vs b p small n inside =
      let i = Counts-IsCounted net round minv vs b small n in
      let m = voters_of b (proposal_hash p) in
      (
        keys_of m,
        i.distinct (proposal_hash p),
        rw (length-keys m) (accepted-quorum round minv vs b p i inside),
        All-map _ _ (λ k h. i.voted (proposal_hash p) k h) (keys_of m) (All-has m),
        i.at_most_one,
      )
