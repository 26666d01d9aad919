-- ===== src/Chain/Steady.antt =====
-- What weighing does to the genesis that a chain remembers (`weigh` of exp/onl/chain.go).
use dd.Base.{
  ◌≡◌, refl, ◌∙◌, ℕ, zero, suc, ◌+◌, ◌-◌, ◌%◌, true, List, [], ◌∷◌, arith, leb, Bool-cases,
  Option-cases, Result-cases, inl, inr,
}
use dd.Base.Bytes.{u64_mod}
use dd.Base.Map.{get, put}
use dd.Base.Sort.{sort_slice}
use dd.Externals.{Radix}
use dd.Block.{BlockId}
use dd.Store.{Entry, StoreTx}
use dd.Chain.{Chain}
use dd.Chain.Weigh.{set_tip, weigh_blocks, weigh_round, weigh_rounds, weigh, sum_weight, outranks}

module _ ⦃r : Radix⦄ ⦃x : StoreTx⦄ where
  set_tip-genesis_id :
      (ch : Chain) (t : x.T) (id : BlockId) (w : ℕ)
      → (set_tip ch t id w).0.genesis_id ≡ ch.genesis_id
  unfolding set_tip
  set_tip-genesis_id ch t id w = ground arith

  weigh_blocks-genesis_id :
      (tipw i : ℕ) (items : List (BlockId × Entry)) (ch : Chain) (t : x.T)
      → (weigh_blocks tipw i items (ch, t)).0.genesis_id ≡ ch.genesis_id
  unfolding weigh_blocks
  weigh_blocks-genesis_id tipw i [] ch t = refl
  weigh_blocks-genesis_id tipw i ((id, entry) ∷ items) ch t =
      elim (Option-cases (get entry.block.prev ch.weights)) [
        | inl missing ↦ rw (missing, weigh_blocks) refl
        | inr (prevw, known) ↦
            let sumw = sum_weight ch.points i prevw in
            let ch' = record ch { weights = put id sumw ch.weights } in
            elim (Bool-cases (leb tipw sumw)) [
              | inr lighter ↦
                  rw (known, weigh_blocks)
                    (rw (lighter, weigh_blocks) (weigh_blocks-genesis_id tipw (suc i) items ch' t))
              | inl heavy ↦ elim (Result-cases (set_tip ch' t id sumw).1) [
                | inr (e, failed) ↦
                    rw (known, weigh_blocks)
                      (rw (heavy, weigh_blocks)
                        (rw (failed, weigh_blocks) (set_tip-genesis_id ch' t id sumw)))
                | inl (u, written) ↦
                    rw (known, weigh_blocks)
                      (rw (heavy, weigh_blocks)
                        (rw (written, weigh_blocks)
                          (weigh_blocks-genesis_id tipw (suc i) items (set_tip ch' t id sumw).0 u
                            ∙ set_tip-genesis_id ch' t id sumw)))
              ]
            ]
      ]

  weigh_round-genesis_id :
      (tipw rn : ℕ) (ch : Chain) (t : x.T)
      → (weigh_round tipw rn (ch, t)).0.genesis_id ≡ ch.genesis_id
  unfolding weigh_round
  weigh_round-genesis_id tipw rn ch t = elim (Result-cases (x.round rn t)) [
    | inr (e, failed) ↦ rw (failed, weigh_round) refl
    | inl (items, found) ↦ elim (Bool-cases ch.locked) [
      | inl held ↦ rw (found, weigh_round) (rw (held, weigh_round) refl)
      | inr free ↦
          rw (found, weigh_round)
            (rw (free, weigh_round)
              (weigh_blocks-genesis_id tipw 0 (sort_slice outranks items)
                (record ch { locked = true }) t))
    ]
  ]

  weigh_rounds-genesis_id :
      (fuel tipw rn : ℕ) (ch : Chain) (t : x.T)
      → (weigh_rounds fuel tipw rn (ch, t)).0.genesis_id ≡ ch.genesis_id
  unfolding weigh_rounds
  weigh_rounds-genesis_id zero tipw rn ch t = refl
  weigh_rounds-genesis_id (suc fuel) tipw rn ch t = elim (Bool-cases (leb rn (x.max_round t))) [
    | inr past ↦ rw (past, weigh_rounds) refl
    | inl more ↦ elim (Result-cases (weigh_round tipw rn (ch, t)).1) [
      | inr (e, failed) ↦
          rw (more, weigh_rounds) (rw (failed, weigh_rounds) (weigh_round-genesis_id tipw rn ch t))
      | inl (u, weighed) ↦
          rw (more, weigh_rounds)
            (rw (weighed, weigh_rounds)
              (weigh_rounds-genesis_id fuel tipw ((rn + 1) % u64_mod)
                  (weigh_round tipw rn (ch, t)).0 u
                ∙ weigh_round-genesis_id tipw rn ch t))
    ]
  ]

  pub weigh-genesis_id :
      (ch : Chain) (t : x.T) (nr : ℕ) → (weigh ch t nr).0.genesis_id ≡ ch.genesis_id
  unfolding weigh
  weigh-genesis_id ch t nr = elim (Result-cases (x.read_tip t)) [
    | inl (tip, at) ↦
        rw (at, weigh) (weigh_rounds-genesis_id (suc (x.max_round t + 1 - nr)) tip.1 nr ch t)
    | inr (e, failed) ↦ rw (failed, weigh) refl
  ]
