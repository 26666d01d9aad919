-- ===== src/Slot/Voter/Handled.antt =====
-- What a voter holds after a series of proposals (`Voter2.Handle` of exp/slot/round.go), before the
-- timeout.
use dd.Base.{
  ◌≡◌, refl, ap, sym, ◌∙◌, ℕ, true, false, none, some, List, [], ◌∷◌, arith, ltb, if◌then◌else◌,
  Option-cases, Bool-cases, inl, inr,
}
use mathlib.Core.Path.{subst}
use mathlib.Core.List.{append-nil}
use dd.Externals.{Crypto}
use dd.Slot.{SlotBlock, Proposal, add_proposer, token_rank, ProposerFilter}
use dd.Slot.Voter.{
  Voter, Network, new_voter, handle_proposal, admit_proposal, take_candidate, relay_proposal,
  ProposalResult,
}
use dd.Slot.Voter.Rank.{top_rank, of_rank, held, held-higher, held-equal, held-lower}

module _ ⦃c : Crypto⦄ where
  -- the proposals that are valid, drawn for the round and built on the last block, whose proposer
  -- has not proposed another token before
  unfoldable pub eligible : ℕ → SlotBlock → ProposerFilter → List Proposal → List Proposal
  eligible round last pf [] = []
  eligible round last pf (p ∷ ps) = elim (admit_proposal (new_voter round last) p) [
    | some _ ↦ eligible round last pf ps
    | none ↦
        let (pf', npro) = add_proposer pf p.pk p.token in
        let rest = eligible round last pf' ps in if ltb 1 npro then rest else p ∷ rest
  ]

  -- the voter after the proposals, in the order in which they arrive
  unfoldable pub handle_proposals : Network → Voter → List Proposal → Voter
  unfolding handle_proposal
  handle_proposals net v [] = v
  handle_proposals net v (p ∷ ps) = handle_proposals net (handle_proposal net v p).0 ps

module _ ⦃c : Crypto⦄ where
  -- the voter with the proposer of `p` in its filter, and the proposer's count of tokens
  abbrev pub filtered : Voter → Proposal → Voter
  filtered v p = record v { pf = (add_proposer v.pf p.pk p.token).0 }

  abbrev pub tokens_of : Voter → Proposal → ℕ
  tokens_of v p = (add_proposer v.pf p.pk p.token).1

  -- the voter after a proposal, before the timeout
  pub record Steps (net : Network) (v : Voter) (p : Proposal) : Type 0 where
    pub refused :
        (res : ProposalResult) → admit_proposal v p ≡ some res → (handle_proposal net v p).0 ≡ v
    pub repeated :
        admit_proposal v p ≡ none
        → ltb 1 (tokens_of v p) ≡ true
        → (handle_proposal net v p).0 ≡ filtered v p
    pub counted :
        admit_proposal v p ≡ none
        → ltb 1 (tokens_of v p) ≡ false
        → (handle_proposal net v p).0
          ≡ elim (take_candidate (filtered v p) p (token_rank p.token)) [
            | none ↦ filtered v p
            | some v' ↦ v'
          ]

  relay_proposal-waits :
      (net : Network) (v : Voter) (p : Proposal) → v.casted ≡ false → (relay_proposal net v p).0 ≡ v
  unfolding relay_proposal
  relay_proposal-waits net v p waiting = rw (waiting, relay_proposal) refl

  take_candidate-casted :
      (v v' : Voter) (p : Proposal) (rank : ℕ)
      → take_candidate v p rank ≡ some v'
      → v'.casted ≡ v.casted
  unfolding take_candidate
  take_candidate-casted v v' p rank h = ground arith

  pub steps : (net : Network) (v : Voter) (p : Proposal) → v.casted ≡ false → Steps net v p
  steps net v p waiting = record {
    refused = λ res e. unfold handle_proposal in rw (e, handle_proposal) refl;
    repeated =
        λ e n. unfold handle_proposal in rw (e, handle_proposal) (rw (n, handle_proposal) refl);
    counted = λ e n. elim (Option-cases (take_candidate (filtered v p) p (token_rank p.token))) [
      | inl lower ↦
          unfold handle_proposal in
          rw (e, handle_proposal) (rw (n, handle_proposal) (rw (lower, handle_proposal) refl))
      | inr (v', taken) ↦
          unfold handle_proposal in
          rw (e, handle_proposal)
            (rw (n, handle_proposal)
              (rw (taken, handle_proposal)
                (relay_proposal-waits net v' p (
                  take_candidate-casted (filtered v p) v' p (token_rank p.token) taken ∙ waiting))))
    ];
  }

  -- what a voter holds that has taken the eligible proposals `qs`
  abbrev pub Holds : Voter → List Proposal → ℕ → List Proposal → Type 0
  Holds v cs t qs = (v.casted ≡ false) × (v.top ≡ top_rank t qs) × (v.candidates ≡ held cs t qs)

  admit-same :
      (v : Voter) (p : Proposal) → admit_proposal v p ≡ admit_proposal (new_voter v.round v.last) p
  unfolding admit_proposal
  admit-same v p = refl

  next-Holds :
      (net : Network) (v u : Voter) (p : Proposal) (ps cs qs : List Proposal) (t : ℕ)
      → (handle_proposal net v p).0 ≡ u
      → Holds (handle_proposals net u ps) cs t qs
      → Holds (handle_proposals net v (p ∷ ps)) cs t qs
  unfolding handle_proposals
  next-Holds net v u p ps cs qs t e h =
      subst (λ w. Holds (handle_proposals net w ps) cs t qs) (sym e) h

  -- the candidates after one more eligible proposal
  taken-Holds :
      (v w : Voter) (p : Proposal) (qs : List Proposal) (u : Voter)
      → elim (take_candidate v p (token_rank p.token)) [ none ↦ v | some v' ↦ v' ] ≡ u
      → Holds w u.candidates u.top qs
      → Holds w v.candidates v.top (p ∷ qs)
  unfolding take_candidate top_rank
  taken-Holds v w p qs u e h = ground (
    arith,
    held-higher v.candidates v.top p qs,
    held-equal v.candidates v.top p qs,
    held-lower v.candidates v.top p qs,
  )

  -- the voter that has counted an eligible proposal
  abbrev pub taken : Voter → Proposal → Voter
  taken v p = elim (take_candidate (filtered v p) p (token_rank p.token)) [
    | none ↦ filtered v p
    | some v' ↦ v'
  ]

  pub taken-same :
      (v : Voter) (p : Proposal)
      → ((taken v p).casted ≡ v.casted)
        × ((taken v p).round ≡ v.round)
        × ((taken v p).last ≡ v.last)
        × ((taken v p).pf ≡ (filtered v p).pf)
  unfolding take_candidate
  taken-same v p = ground arith

  eligible-refused :
      (v : Voter) (p : Proposal) (ps : List Proposal) (res : ProposalResult)
      → admit_proposal v p ≡ some res
      → eligible v.round v.last v.pf (p ∷ ps) ≡ eligible v.round v.last v.pf ps
  unfolding eligible
  eligible-refused v p ps res e = rw (sym (admit-same v p) ∙ e, eligible) refl

  eligible-repeated :
      (v : Voter) (p : Proposal) (ps : List Proposal)
      → admit_proposal v p ≡ none
      → ltb 1 (tokens_of v p) ≡ true
      → eligible v.round v.last v.pf (p ∷ ps) ≡ eligible v.round v.last (filtered v p).pf ps
  unfolding eligible
  eligible-repeated v p ps e n = rw (sym (admit-same v p) ∙ e, eligible) (rw (n, eligible) refl)

  eligible-counted :
      (v : Voter) (p : Proposal) (ps : List Proposal)
      → admit_proposal v p ≡ none
      → ltb 1 (tokens_of v p) ≡ false
      → eligible v.round v.last v.pf (p ∷ ps) ≡ p ∷ eligible v.round v.last (filtered v p).pf ps
  unfolding eligible
  eligible-counted v p ps e n = rw (sym (admit-same v p) ∙ e, eligible) (rw (n, eligible) refl)

  eligible-taken :
      (v : Voter) (p : Proposal) (ps : List Proposal)
      → eligible (taken v p).round (taken v p).last (taken v p).pf ps
        ≡ eligible v.round v.last (filtered v p).pf ps
  eligible-taken v p ps =
      let (_, round, last, pf) = taken-same v p in
      ap (λ r. eligible r (taken v p).last (taken v p).pf ps) round
      ∙ ap (λ l. eligible v.round l (taken v p).pf ps) last
      ∙ ap (λ f. eligible v.round v.last f ps) pf

  pub handle_proposals-Holds :
      (net : Network) (ps : List Proposal) (v : Voter)
      → v.casted ≡ false
      → Holds (handle_proposals net v ps) v.candidates v.top (eligible v.round v.last v.pf ps)
  handle_proposals-Holds net [] v waiting =
      unfold handle_proposals eligible top_rank of_rank in
      (waiting, refl, ground (arith, append-nil v.candidates))
  handle_proposals-Holds net (p ∷ ps) v waiting =
      let s = steps net v p waiting in
      elim (Option-cases (admit_proposal v p)) [
        | inr (res, e) ↦
            subst (Holds (handle_proposals net v (p ∷ ps)) v.candidates v.top)
              (sym (eligible-refused v p ps res e))
              (next-Holds net v v p ps v.candidates _ v.top (s.refused res e)
                (handle_proposals-Holds net ps v waiting))
        | inl e ↦ elim (Bool-cases (ltb 1 (tokens_of v p))) [
          | inl n ↦
              subst (Holds (handle_proposals net v (p ∷ ps)) v.candidates v.top)
                (sym (eligible-repeated v p ps e n))
                (next-Holds net v (filtered v p) p ps v.candidates _ v.top (s.repeated e n)
                  (handle_proposals-Holds net ps (filtered v p) waiting))
          | inr n ↦
              subst (Holds (handle_proposals net v (p ∷ ps)) v.candidates v.top)
                (sym (eligible-counted v p ps e n))
                (next-Holds net v (taken v p) p ps v.candidates _ v.top (s.counted e n) (
                  taken-Holds (filtered v p) (handle_proposals net (taken v p) ps) p _ (taken v p)
                    refl
                    (subst
                      (Holds (handle_proposals net (taken v p) ps) (taken v p).candidates
                        (taken v p).top)
                      (eligible-taken v p ps)
                      (handle_proposals-Holds net ps (taken v p) ((taken-same v p).0 ∙ waiting)))))
        ]
      ]
