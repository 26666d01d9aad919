-- ===== src/Slot/Ballot/Tested.antt =====
-- The tests of `Ballot.Handle` (exp/slot/round.go) before it counts a vote.
use dd.Base.{◌≡◌, refl, ap, ◌∙◌, false, List, Error, ok, err, fail_if, >>=-eq-ok, ltb, is_some}
use dd.Base.Inversion.{ok-injective, fail_if-eq-ok}
use dd.Externals.{Crypto}
use dd.Slot.{Proposal, SlotVote, SlotMsg, voting, add_proposer, token_rank}
use dd.Slot.Voter.{Network}
use dd.Slot.Ballot.{Ballot, check_tokens, count_vote, handle_vote}

module _ ⦃c : Crypto⦄ where
  -- the tests that a vote passes before it is counted
  pub record Tested (net : Network) (b : Ballot) (v : SlotVote) (p : Proposal) : Type 0 where
    pub checked : check_tokens b.round v ≡ ok p
    pub high : ltb (token_rank p.token) b.top ≡ false
    pub once : ltb 1 (add_proposer b.pf p.pk p.token).1 ≡ false
    pub relayed : is_some (net (voting v)) ≡ false

  abbrev pub tested : Ballot → Proposal → Ballot
  tested b p = record b { top = token_rank p.token; pf = (add_proposer b.pf p.pk p.token).0 }

  pub handle_vote-Tested :
      (net : Network) (b b' : Ballot) (v : SlotVote) (msgs : List SlotMsg)
      → handle_vote net b v ≡ ok (b', msgs)
      → (p : Proposal) × Tested net b v p × (count_vote (tested b p) p v.pk ≡ ok b')
  unfolding handle_vote
  handle_vote-Tested net b b' v msgs h =
      let (p, checked, h1) = >>=-eq-ok (check_tokens b.round v) _ h in
      let (_, high, h2) = >>=-eq-ok (fail_if (ltb (token_rank p.token) b.top) _) _ h1 in
      let (_, once, h3) = >>=-eq-ok (fail_if (ltb 1 (add_proposer b.pf p.pk p.token).1) _) _ h2 in
      let (_, relayed, h4) = >>=-eq-ok (fail_if (is_some (net (voting v))) _) _ h3 in
      let (out, done, h5) = >>=-eq-ok (count_vote _ p v.pk) _ h4 in
      (
        p,
        record {
          checked = checked;
          high = fail_if-eq-ok _ _ high;
          once = fail_if-eq-ok _ _ once;
          relayed = fail_if-eq-ok _ _ relayed;
        },
        done ∙ ap ok (ap (λ r. r.0) (ok-injective h5)),
      )

  pub Tested-handle_vote :
      (net : Network) (b : Ballot) (v : SlotVote) (p : Proposal) (e : Error)
      → Tested net b v p
      → count_vote (tested b p) p v.pk ≡ err e
      → handle_vote net b v ≡ err e
  unfolding handle_vote
  Tested-handle_vote net b v p e t counted =
      rw (t.checked, handle_vote)
        (rw (t.high, handle_vote)
          (rw (t.once, handle_vote) (rw (t.relayed, handle_vote) (rw (counted, handle_vote) refl))))
