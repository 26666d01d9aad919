-- ===== src/Slot/Voter/Highest.antt =====
-- Which proposals a voter votes for (`Voter2` of exp/slot/round.go).
use dd.Base.{
  ◌≡◌, refl, ap, ◌∙◌, ℕ, true, Option, none, some, List, [], ◌∷◌, map, Error, ok, err, panic, arith,
  is_some, if◌then◌else◌, All,
}
use dd.Externals.{Crypto}
use dd.Slot.{SlotBlock, SlotMsg, SlotVote, voting, Proposal, validate_vote}
use dd.Slot.Voter.{Voter, Network, new_voter, cast_all, cast_votes, expire, vote_for}
use dd.Slot.Ballot.{Ballot, handle_vote, check_tokens}
use dd.Slot.Voter.Rank.{highest, held}
use dd.Slot.Voter.Handled.{eligible, handle_proposals, handle_proposals-Holds}

module _ ⦃c : Crypto⦄ where
  cast_all-ok :
      (net : Network) (ps : List Proposal)
      → ((m : SlotMsg) → net m ≡ none)
      → cast_all net none ps ≡ (map vote_for ps, none)
  unfolding cast_all
  cast_all-ok net [] up = refl
  cast_all-ok net (p ∷ ps) up =
      ap (λ (r : List SlotMsg × Option Error). (vote_for p ∷ r.0, r.1))
        (ap (λ e. cast_all net e ps) (up (vote_for p)) ∙ cast_all-ok net ps up)

  -- the candidates of a new voter
  held-highest : (qs : List Proposal) → held [] 0 qs ≡ highest qs
  held-highest qs = ground arith

  cast_votes-ok :
      (net : Network) (v : Voter)
      → ((m : SlotMsg) → net m ≡ none)
      → cast_votes net v ≡ (record v { candidates = [] }, map vote_for v.candidates, none)
  unfolding cast_votes
  cast_votes-ok net v up =
      ap
        (λ (r : List SlotMsg × Option Error).
          (if is_some r.1 then v else record v { candidates = [] }, r.0, r.1))
        (cast_all-ok net v.candidates up)

  expire-casts :
      (net : Network) (v : Voter)
      → ((m : SlotMsg) → net m ≡ none)
      → expire net v ≡ ok (record v { candidates = []; casted = true }, map vote_for v.candidates)
  unfolding expire
  expire-casts net v up =
      ap
        (λ (r : Voter × List SlotMsg × Option Error). elim r.2 [
          | none ↦ ok (record r.0 { casted = true }, r.1)
          | some _ ↦ err (panic "failed to cast after timer expired")
        ])
        (cast_votes-ok net v up)

  -- Which votes a round casts. Whatever proposals arrive before the timeout, and in whatever order:
  -- when it expires, and the network takes every message, the voter writes one vote for each of
  -- the highest-ranking of the eligible proposals, in the order of their arrival, and for no
  -- other; it is left without candidates, to cast at once from then on.
  pub expire-casts_highest :
      (net : Network) (round : ℕ) (last : SlotBlock) (ps : List Proposal)
      → ((m : SlotMsg) → net m ≡ none)
      → expire net (handle_proposals net (new_voter round last) ps)
        ≡ ok (
          record (handle_proposals net (new_voter round last) ps) {
            candidates = [];
            casted = true;
          },
          map vote_for (highest (eligible round last [] ps)),
        )
  expire-casts_highest net round last ps up =
      let v = handle_proposals net (new_voter round last) ps in
      let (_, _, cs) = handle_proposals-Holds net ps (new_voter round last) refl in
      expire-casts net v up
      ∙ ap (λ (l : List Proposal). ok (record v { candidates = []; casted = true }, map vote_for l))
          (cs ∙ held-highest (eligible round last [] ps))

  vote_for-refused :
      (net : Network) (b : Ballot) (p : Proposal)
      → handle_vote net b (record { token = []; pk = []; proof = []; proposal = some p })
        ≡ err (panic "failed to validate vote")
  unfolding handle_vote check_tokens validate_vote
  vote_for-refused net b p = refl

  cast_all-refused :
      (net net' : Network) (b : Ballot) (e : Option Error) (ps : List Proposal)
      → All
          (λ m.
            (vote : SlotVote) × (m ≡ voting vote)
            × (handle_vote net' b vote ≡ err (panic "failed to validate vote")))
          (cast_all net e ps).0
  unfolding cast_all
  cast_all-refused net net' b e [] = tt
  cast_all-refused net net' b e (p ∷ ps) =
      ((_, refl, vote_for-refused net' b p), cast_all-refused net net' b (net (vote_for p)) ps)

  -- The votes that a voter casts carry no token: every ballot panics on each of them.
  pub cast_votes-refused :
      (net net' : Network) (v : Voter) (b : Ballot)
      → All
          (λ m.
            (vote : SlotVote) × (m ≡ voting vote)
            × (handle_vote net' b vote ≡ err (panic "failed to validate vote")))
          (cast_votes net v).1
  unfolding cast_votes
  cast_votes-refused net net' v b = cast_all-refused net net' b none v.candidates
