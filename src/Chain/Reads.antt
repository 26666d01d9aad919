-- ===== src/Chain/Reads.antt =====
-- What weighing does to the blocks of the store (`weigh` of exp/onl/chain.go).
use dd.Base.{
  ◌≡◌, refl, ◌∙◌, ℕ, zero, suc, ◌+◌, ◌-◌, ◌%◌, true, List, [], ◌∷◌, Result, ok, err, leb,
  Bool-cases, Option-cases, Result-cases, Returns, inl, inr,
}
use dd.Base.Bytes.{u64_mod}
use dd.Base.Map.{get, put}
use dd.Base.Sort.{sort_slice}
use dd.Externals.{Crypto, Radix}
use dd.Block.{BlockId}
use dd.Store.{Entry, StoreTx, StoreLaws}
use dd.Chain.{Chain}
use dd.Chain.Walk.{state_at, nil_id}
use dd.Chain.Weigh.{set_tip, weigh_blocks, weigh_round, weigh_rounds, weigh, sum_weight, outranks}

module _ ⦃c : Crypto⦄ ⦃r : Radix⦄ ⦃x : StoreTx⦄ (laws : StoreLaws x) where
  -- every block is read as before
  abbrev pub SameReads : x.T → x.T → Type 0
  SameReads t u = (id : BlockId) → x.read id u ≡ x.read id t

  set_tip-reads :
      (ch : Chain) (t : x.T) (id : BlockId) (w : ℕ) → Returns (SameReads t) (set_tip ch t id w).1
  unfolding set_tip
  set_tip-reads ch t id w = elim (Result-cases (x.write_tip id w t)) [
    | inl (u, written) ↦ elim (Result-cases (state_at ch u nil_id)) [
      | inl (s, at) ↦
          rw (written, set_tip) (rw (at, set_tip) (λ j. laws.read-write_tip id w t u j written))
      | inr (e, at) ↦ rw (written, set_tip) (rw (at, set_tip) tt)
    ]
    | inr (e, failed) ↦ rw (failed, set_tip) tt
  ]

  Returns-SameReads :
      (t u : x.T) (res : Result x.T)
      → SameReads t u
      → Returns (SameReads u) res
      → Returns (SameReads t) res
  Returns-SameReads t u (ok v) h k = λ j. k j ∙ h j
  Returns-SameReads t u (err e) h k = tt

  weigh_blocks-reads :
      (tipw i : ℕ) (blocks : List (BlockId × Entry)) (ch : Chain) (t : x.T)
      → Returns (SameReads t) (weigh_blocks tipw i blocks (ch, t)).1
  unfolding weigh_blocks
  weigh_blocks-reads tipw i [] ch t = λ j. refl
  weigh_blocks-reads tipw i ((id, entry) ∷ blocks) ch t =
      elim (Option-cases (get entry.block.prev ch.weights)) [
        | inl missing ↦ rw (missing, weigh_blocks) tt
        | inr (prevw, known) ↦
            let sumw = sum_weight ch.points i prevw in
            let ch' = record ch { weights = put id sumw ch.weights } in
            elim (Bool-cases (leb tipw sumw)) [
              | inr lighter ↦
                  rw (known, weigh_blocks)
                    (rw (lighter, weigh_blocks) (weigh_blocks-reads tipw (suc i) blocks ch' t))
              | inl heavy ↦ elim (Result-cases (set_tip ch' t id sumw).1) [
                | inr (e, failed) ↦
                    rw (known, weigh_blocks)
                      (rw (heavy, weigh_blocks) (rw (failed, weigh_blocks) tt))
                | inl (u, written) ↦
                    rw (known, weigh_blocks)
                      (rw (heavy, weigh_blocks)
                        (rw (written, weigh_blocks)
                          (Returns-SameReads t u _ (rw written at (set_tip-reads ch' t id sumw))
                            (weigh_blocks-reads tipw (suc i) blocks (set_tip ch' t id sumw).0 u))))
              ]
            ]
      ]

  weigh_round-reads :
      (tipw rn : ℕ) (ch : Chain) (t : x.T) → Returns (SameReads t) (weigh_round tipw rn (ch, t)).1
  unfolding weigh_round
  weigh_round-reads tipw rn ch t = elim (Result-cases (x.round rn t)) [
    | inr (e, failed) ↦ rw (failed, weigh_round) tt
    | inl (blocks, found) ↦ elim (Bool-cases ch.locked) [
      | inl held ↦ rw (found, weigh_round) (rw (held, weigh_round) tt)
      | inr free ↦
          rw (found, weigh_round)
            (rw (free, weigh_round)
              (weigh_blocks-reads tipw 0 (sort_slice outranks blocks) (record ch { locked = true })
                t))
    ]
  ]

  weigh_rounds-reads :
      (fuel tipw rn : ℕ) (ch : Chain) (t : x.T)
      → Returns (SameReads t) (weigh_rounds fuel tipw rn (ch, t)).1
  unfolding weigh_rounds
  weigh_rounds-reads zero tipw rn ch t = tt
  weigh_rounds-reads (suc fuel) tipw rn ch t = elim (Bool-cases (leb rn (x.max_round t))) [
    | inr past ↦ rw (past, weigh_rounds) (λ j. refl)
    | inl more ↦ elim (Result-cases (weigh_round tipw rn (ch, t)).1) [
      | inr (e, failed) ↦ rw (more, weigh_rounds) (rw (failed, weigh_rounds) tt)
      | inl (u, weighed) ↦
          rw (more, weigh_rounds)
            (rw (weighed, weigh_rounds)
              (Returns-SameReads t u _ (rw weighed at (weigh_round-reads tipw rn ch t)) (
                weigh_rounds-reads fuel tipw ((rn + 1) % u64_mod) (weigh_round tipw rn (ch, t)).0
                  u)))
    ]
  ]

  pub weigh-reads : (ch : Chain) (t : x.T) (nr : ℕ) → Returns (SameReads t) (weigh ch t nr).1
  unfolding weigh
  weigh-reads ch t nr = elim (Result-cases (x.read_tip t)) [
    | inl (tip, at) ↦
        rw (at, weigh) (weigh_rounds-reads (suc (x.max_round t + 1 - nr)) tip.1 nr ch t)
    | inr (e, failed) ↦ rw (failed, weigh) tt
  ]
