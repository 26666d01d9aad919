-- ===== src/Slot/Ballot/Repeat.antt =====
-- A vote that comes twice (`Ballot.Handle` of exp/slot/round.go).
use mathlib.Core.Path.{subst}
use dd.Base.{
  ◌≡◌, refl, ap, sym, ◌∙◌, ℕ, ◌+◌, ◌%◌, true, false, some, List, [], ◌∷◌, ◌++◌, ok, err, panic,
  arith, length,
}
use dd.Base.Bytes.{Bytes, u64_mod, bytes_eq_refl}
use dd.Base.Map.{Map, get, put, get-put}
use dd.Externals.{Crypto}
use dd.Slot.{
  ProposerFilter, Proposal, SlotVote, SlotMsg, add_proposer, proposal_hash, or_empty, fit,
}
use dd.Slot.Voter.{Network}
use dd.Slot.Ballot.{Ballot, count_vote, handle_vote}
use dd.Slot.Ballot.Voters.{voters_of}
use dd.Slot.Ballot.Tested.{tested, handle_vote-Tested, Tested-handle_vote}

put-again : {V : Type 0} (k : Bytes) (v : V) (m : Map V) → put k v (put k v m) ≡ put k v m
unfolding put
put-again k v [] = ground (arith, bytes_eq_refl k)
put-again k v ((j, w) ∷ m) = ground (arith, put-again k v m)

get-put_here : {V : Type 0} (k : Bytes) (v : V) (m : Map V) → get k (put k v m) ≡ some v
get-put_here k v m = get-put k k v m ∙ rw (bytes_eq_refl k) refl

-- a token that a proposer has proposed before is not counted again
add_proposer-again :
    (pf : ProposerFilter) (pk token : Bytes)
    → (add_proposer (add_proposer pf pk token).0 pk token).1 ≡ (add_proposer pf pk token).1
unfolding add_proposer
add_proposer-again pf pk token =
    let pids = put (fit 32 token) tt (or_empty (get (fit 32 pk) pf)) in
    ap (λ o. length (put (fit 32 token) tt (or_empty o))) (get-put_here (fit 32 pk) pids pf)
    ∙ ap length (put-again (fit 32 token) tt (or_empty (get (fit 32 pk) pf)))

module _ ⦃c : Crypto⦄ where
  -- the count that accepts a proposal
  abbrev accepting : Ballot → Proposal → Bytes → Ballot
  accepting b p pk = record b {
    votes = put (proposal_hash p) (put (fit 32 pk) tt (voters_of b (proposal_hash p))) b.votes;
    accepted = b.accepted ++ p ∷ [];
    closed = true;
  }

  count_vote-accepts :
      (b b' : Ballot) (p : Proposal) (pk : Bytes)
      → count_vote b p pk ≡ ok b'
      → b.closed ≡ false
      → b'.closed ≡ true
      → (b' ≡ accepting b p pk)
        × (length (put (fit 32 pk) tt (voters_of b (proposal_hash p))) ≡ (b.minv + 1) % u64_mod)
  unfolding count_vote
  count_vote-accepts b b' p pk h was_open closed = ground arith

  count_vote-again :
      (b : Ballot) (p : Proposal) (pk : Bytes) (top : ℕ) (pf : ProposerFilter)
      → length (put (fit 32 pk) tt (voters_of b (proposal_hash p))) ≡ (b.minv + 1) % u64_mod
      → count_vote (record (accepting b p pk) { top = top; pf = pf }) p pk
        ≡ err (panic "send on closed channel")
  unfolding count_vote
  count_vote-again b p pk top pf full =
      let voters = put (fit 32 pk) tt (voters_of b (proposal_hash p)) in
      let again : voters_of (accepting b p pk) (proposal_hash p) ≡ voters =
        ap or_empty (get-put_here (proposal_hash p) voters b.votes) in
      let same : length (put (fit 32 pk) tt (voters_of (accepting b p pk) (proposal_hash p)))
          ≡ (b.minv + 1) % u64_mod =
        ap (λ m. length (put (fit 32 pk) tt m)) again
        ∙ ap length (put-again (fit 32 pk) tt (voters_of b (proposal_hash p)))
        ∙ full in
      ground (arith, same)

  -- The vote that completes the majority must not come twice: once a ballot has accepted a
  -- proposal on a vote, the same vote again panics, since it sends on the channel that the
  -- acceptance has closed.
  pub handle_vote-again :
      (net : Network) (b b' : Ballot) (v : SlotVote) (msgs : List SlotMsg)
      → b.closed ≡ false
      → handle_vote net b v ≡ ok (b', msgs)
      → b'.closed ≡ true
      → handle_vote net b' v ≡ err (panic "send on closed channel")
  handle_vote-again net b b' v msgs was_open h closed =
      let (p, t, done) = handle_vote-Tested net b b' v msgs h in
      let (is, full) = count_vote-accepts (tested b p) b' p v.pk done was_open closed in
      subst (λ x. handle_vote net x v ≡ err (panic "send on closed channel")) (sym is)
        (Tested-handle_vote net (accepting (tested b p) p v.pk) v p _
          (record {
            checked = t.checked;
            high = ground arith;
            once = rw (add_proposer-again b.pf p.pk p.token) t.once;
            relayed = t.relayed;
          })
          (count_vote-again (tested b p) p v.pk _ _ full))
