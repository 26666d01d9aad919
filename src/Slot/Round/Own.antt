-- ===== src/Slot/Round/Own.antt =====
-- A member's own proposal (`Round.Run` of exp/slot/round.go) in the hands of the voters of its round.
use dd.Base.{
  ◌≡◌, ◌≢◌, refl, ◌∙◌, ℕ, true, false, none, List, [], ◌∷◌, ◌++◌, All, arith, ltb, if◌then◌else◌,
  Option-cases, Bool-cases, inl, inr,
}
use dd.Base.Bytes.{Bytes, bytes_eq, bytes_eq_iff, bytes_eq_refl}
use dd.Base.Map.{get, put, get-put}
use dd.Externals.{Crypto}
use dd.Slot.{
  SlotBlock, Proposal, proposing, slot_hash, le64, nil_slot_id, lottery_verify, validate_proposal,
  validate_block, fit, add_proposer, token_rank, ProposerFilter,
}
use dd.Slot.Voter.{
  Voter, Network, no_result, new_voter, handle_proposal, admit_proposal, take_candidate,
  relay_proposal,
}
use dd.Slot.Voter.Rank.{top_rank}
use dd.Slot.Voter.Handled.{
  eligible, handle_proposals, handle_proposals-Holds, steps, tokens_of, taken-same,
}
use dd.Slot.Round.{Lottery, Draws, new_round, draw, own_proposal}

module _ ⦃c : Crypto⦄ where
  own_proposal-admitted :
      (lt : Lottery) (num minv : ℕ) (last : SlotBlock) (v : Voter)
      → Draws lt
      → bytes_eq (slot_hash last) nil_slot_id ≡ false
      → v.round ≡ num
      → v.last ≡ last
      → admit_proposal v (own_proposal (new_round lt num last minv)) ≡ none
  unfolding own_proposal new_round draw admit_proposal validate_proposal validate_block
      lottery_verify
  own_proposal-admitted lt num minv last v d hash same_round same_last = ground (
    arith,
    d.verifies (le64 num),
    d.pk_size,
    d.token_size (le64 num),
    d.proof_size (le64 num),
    hash,
    same_round,
    same_last,
    bytes_eq_refl (slot_hash last),
  )

  -- before the timeout of its round, and with no proposal of the proposer `k`
  record Waits (k : Bytes) (num : ℕ) (last : SlotBlock) (v : Voter) : Type 0 where
    waiting : v.casted ≡ false
    round : v.round ≡ num
    last_block : v.last ≡ last
    fresh : get k v.pf ≡ none

  add_proposer-fresh :
      (pf : ProposerFilter) (pk token k : Bytes)
      → fit 32 pk ≢ k
      → get k pf ≡ none
      → get k (add_proposer pf pk token).0 ≡ none
  unfolding add_proposer
  add_proposer-fresh pf pk token k other h =
      rw get-put (ground (arith, other, bytes_eq_iff (fit 32 pk) k))

  handle_proposal-Waits :
      (net : Network) (v : Voter) (p : Proposal) (k : Bytes) (num : ℕ) (last : SlotBlock)
      → fit 32 p.pk ≢ k
      → Waits k num last v
      → Waits k num last (handle_proposal net v p).0
  handle_proposal-Waits net v p k num last other w =
      let s = steps net v p w.waiting in
      let fresh = add_proposer-fresh v.pf p.pk p.token k other w.fresh in
      elim (Option-cases (admit_proposal v p)) [
        | inr (res, e) ↦ rw (s.refused res e) w
        | inl e ↦ elim (Bool-cases (ltb 1 (tokens_of v p))) [
          | inl n ↦ rw (s.repeated e n) (record {
            waiting = w.waiting;
            round = w.round;
            last_block = w.last_block;
            fresh = fresh;
          })
          | inr n ↦
              let (casted, round, last_block, pf) = taken-same v p in
              rw (s.counted e n) (record {
                waiting = casted ∙ w.waiting;
                round = round ∙ w.round;
                last_block = last_block ∙ w.last_block;
                fresh = rw pf fresh;
              })
        ]
      ]

  handle_proposals-Waits :
      (net : Network) (ps : List Proposal) (v : Voter) (k : Bytes) (num : ℕ) (last : SlotBlock)
      → All (λ (p : Proposal). fit 32 p.pk ≢ k) ps
      → Waits k num last v
      → Waits k num last (handle_proposals net v ps)
  unfolding handle_proposals
  handle_proposals-Waits net [] v k num last others w = w
  handle_proposals-Waits net (p ∷ ps) v k num last others w =
      handle_proposals-Waits net ps (handle_proposal net v p).0 k num last others.1
        (handle_proposal-Waits net v p k num last others.0 w)

  tokens_of-first : (v : Voter) (p : Proposal) → get (fit 32 p.pk) v.pf ≡ none → tokens_of v p ≡ 1
  unfolding add_proposer put
  tokens_of-first v p fresh = rw (fresh, add_proposer) refl

  -- a proposal that is admitted, the first of its proposer, before the timeout
  handle_proposal-first :
      (net : Network) (v : Voter) (p : Proposal)
      → admit_proposal v p ≡ none
      → v.casted ≡ false
      → get (fit 32 p.pk) v.pf ≡ none
      → let rank = token_rank p.token in
        let (v', msgs, res) = handle_proposal net v p in
        (msgs ≡ (if ltb rank v.top then [] else proposing p ∷ []))
        × (v'.candidates ≡ (
            if ltb rank v.top
            then v.candidates
            else if ltb v.top rank
            then p ∷ []
            else v.candidates ++ p ∷ []))
        × (res ≡ (
            if ltb rank v.top
            then record no_result { proposal_rank_not_higher = true }
            else record no_result { relay_failure = net (proposing p) }))
  unfolding handle_proposal take_candidate relay_proposal
  handle_proposal-first net v p admitted waiting fresh =
      rw (admitted, handle_proposal)
        (rw (tokens_of-first v p fresh, handle_proposal) (ground (arith, waiting)))

  -- A member's own proposal reaches the votes. Whatever proposals of others a voter of the round has
  -- handled before the timeout, valid or not, if it builds on the same block: it takes the
  -- member's proposal as a candidate and passes it on, unless an eligible proposal before it ranks
  -- higher; it drops the candidates that rank lower and keeps those that rank as high. The hash of
  -- the block is not the empty identifier, what `vrf.Prove` returns has its sizes and verifies, and
  -- no proposal before it came with the member's key.
  pub handle_proposal-own :
      (net : Network) (lt : Lottery) (num minv : ℕ) (last : SlotBlock) (ps : List Proposal)
      → Draws lt
      → bytes_eq (slot_hash last) nil_slot_id ≡ false
      → All (λ (p : Proposal). fit 32 p.pk ≢ fit 32 lt.pk) ps
      → let v = handle_proposals net (new_voter num last) ps in
        let top = top_rank 0 (eligible num last [] ps) in
        let p = own_proposal (new_round lt num last minv) in
        let rank = token_rank p.token in
        let (v', msgs, res) = handle_proposal net v p in
        (msgs ≡ (if ltb rank top then [] else proposing p ∷ []))
        × (v'.candidates ≡ (
            if ltb rank top
            then v.candidates
            else if ltb top rank
            then p ∷ []
            else v.candidates ++ p ∷ []))
        × (res ≡ (
            if ltb rank top
            then record no_result { proposal_rank_not_higher = true }
            else record no_result { relay_failure = net (proposing p) }))
  unfolding own_proposal new_round draw
  handle_proposal-own net lt num minv last ps d hash others =
      let v = handle_proposals net (new_voter num last) ps in
      let w =
        handle_proposals-Waits net ps (new_voter num last) (fit 32 lt.pk) num last others (record {
          waiting = refl;
          round = refl;
          last_block = refl;
          fresh = (unfold get in refl);
        }) in
      let (_, top, _) = handle_proposals-Holds net ps (new_voter num last) refl in
      let p = own_proposal (new_round lt num last minv) in
      rw (← top) (
        handle_proposal-first net v p
          (own_proposal-admitted lt num minv last v d hash w.round w.last_block) w.waiting w.fresh)
