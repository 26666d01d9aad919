-- ===== src/Chain/Tip.antt =====
-- Which block becomes the tip (`weigh` of exp/onl/chain.go).
use dd.Base.{
  ◌≡◌, refl, ap, ℕ, suc, ◌<◌, Option, none, some, List, [], ◌∷◌, Result, ok, arith, leb, length,
  All, Bool-cases, Option-cases, Result-cases, Returns, Returns-eq-ok, inl, inr, if◌then◌else◌,
}
use mathlib.Core.Path.{subst}
use dd.Base.Bytes.{u64_mod}
use dd.Base.Map.{Map, get, put}
use dd.Externals.{Crypto, Radix}
use dd.Block.{BlockId}
use dd.Store.{Entry, StoreTx, StoreLaws}
use dd.Chain.{Chain}
use dd.Chain.Walk.{state_at, nil_id}
use dd.Chain.Weigh.{set_tip, weigh_blocks, sum_weight}

-- a weight in the map, 0 if it has none
abbrev pub weight_of : BlockId → Map ℕ → ℕ
weight_of id weights = elim (get id weights) [ none ↦ 0 | some w ↦ w ]

-- The last block, from place `i` on, whose weight reaches `tipw`, with that weight; `found` if no
-- block does. The weights are those of the code: the block before, and the points of the place.
unfoldable pub last_heavy :
    ℕ → ℕ → ℕ → List (BlockId × Entry) → Map ℕ → Option (BlockId × ℕ) → Option (BlockId × ℕ)
last_heavy points tipw i [] weights found = found
last_heavy points tipw i ((id, entry) ∷ blocks) weights found =
    let sumw = sum_weight points i (weight_of entry.block.prev weights) in
    last_heavy points tipw (suc i) blocks (put id sumw weights)
      (if leb tipw sumw then some (id, sumw) else found)

last_heavy-step :
    (points tipw i : ℕ) (id : BlockId) (entry : Entry) (blocks : List (BlockId × Entry))
    (weights : Map ℕ) (found : Option (BlockId × ℕ)) {prevw : ℕ}
    → get entry.block.prev weights ≡ some prevw
    → last_heavy points tipw i ((id, entry) ∷ blocks) weights found
      ≡ last_heavy points tipw (suc i) blocks (put id (sum_weight points i prevw) weights) (
          if leb tipw (sum_weight points i prevw)
          then some (id, sum_weight points i prevw)
          else found)
unfolding last_heavy
last_heavy-step points tipw i id entry blocks weights found known =
    ap
      (λ w.
        last_heavy points tipw (suc i) blocks (put id (sum_weight points i w) weights)
          (if leb tipw (sum_weight points i w) then some (id, sum_weight points i w) else found))
      (ap (λ (o : Option ℕ). elim o [ none ↦ 0 | some w ↦ w ]) known)

-- the identifiers have 32 bytes
abbrev pub AllIds : List (BlockId × Entry) → Type 0
AllIds blocks = All (λ (b : BlockId × Entry). length b.0 ≡ 32) blocks

-- the tip that is chosen, or else the one that was read
abbrev pub or_tip : Option (BlockId × ℕ) → Result (BlockId × ℕ) → Result (BlockId × ℕ)
or_tip none tip = tip
or_tip (some chosen) tip = ok chosen

module _ ⦃c : Crypto⦄ ⦃r : Radix⦄ ⦃x : StoreTx⦄ (laws : StoreLaws x) where
  -- `set_tip` writes the tip, and keeps the weights and the points
  set_tip-tip :
      (ch : Chain) (t : x.T) (id : BlockId) (w : ℕ)
      → length id ≡ 32
      → w < u64_mod
      → Returns (λ u. x.read_tip u ≡ ok (id, w)) (set_tip ch t id w).1
        × ((set_tip ch t id w).0.weights ≡ ch.weights)
        × ((set_tip ch t id w).0.points ≡ ch.points)
  unfolding set_tip
  set_tip-tip ch t id w hl hw = elim (Result-cases (x.write_tip id w t)) [
    | inl (u, written) ↦ elim (Result-cases (state_at ch u nil_id)) [
      | inl (s, at) ↦
          rw (written, set_tip)
            (rw (at, set_tip) (laws.read_tip-write_tip id w t u hl hw written, refl, refl))
      | inr (e, at) ↦ rw (written, set_tip) (rw (at, set_tip) (tt, refl, refl))
    ]
    | inr (e, failed) ↦ rw (failed, set_tip) (tt, refl, refl)
  ]

  abbrev TipIs : Option (BlockId × ℕ) → Result (BlockId × ℕ) → Result x.T → Type 0
  TipIs chosen before = Returns (λ u. x.read_tip u ≡ or_tip chosen before)

  same_chain :
      (tipw i : ℕ) (blocks : List (BlockId × Entry)) (ch ch' : Chain) (u : x.T)
      (found : Option (BlockId × ℕ)) (before : Result (BlockId × ℕ))
      → ch.weights ≡ ch'.weights
      → ch.points ≡ ch'.points
      → TipIs
          (last_heavy ch.points tipw (suc i) blocks ch.weights found)
          before
          (weigh_blocks tipw (suc i) blocks (ch, u)).1
      → TipIs
          (last_heavy ch'.points tipw (suc i) blocks ch'.weights found)
          before
          (weigh_blocks tipw (suc i) blocks (ch, u)).1
  same_chain tipw i blocks ch ch' u found before ew ep h =
      subst
        (λ ws.
          TipIs (last_heavy ch'.points tipw (suc i) blocks ws found) before
            (weigh_blocks tipw (suc i) blocks (ch, u)).1)
        ew
        (subst
          (λ ps.
            TipIs (last_heavy ps tipw (suc i) blocks ch.weights found) before
              (weigh_blocks tipw (suc i) blocks (ch, u)).1)
          ep h)

  weigh_blocks-tip_from :
      (tipw i : ℕ) (blocks : List (BlockId × Entry)) (ch : Chain) (t : x.T)
      (found : Option (BlockId × ℕ)) (before : Result (BlockId × ℕ))
      → AllIds blocks
      → x.read_tip t ≡ or_tip found before
      → TipIs
          (last_heavy ch.points tipw i blocks ch.weights found)
          before
          (weigh_blocks tipw i blocks (ch, t)).1
  unfolding weigh_blocks
  weigh_blocks-tip_from tipw i [] ch t found before ids at = unfold last_heavy in at
  weigh_blocks-tip_from tipw i ((id, entry) ∷ blocks) ch t found before ids at =
      elim (Option-cases (get entry.block.prev ch.weights)) [
        | inl missing ↦ rw (missing, weigh_blocks) tt
        | inr (prevw, known) ↦
            let sumw = sum_weight ch.points i prevw in
            let ch' = record ch { weights = put id sumw ch.weights } in
            elim (Bool-cases (leb tipw sumw)) [
              | inr lighter ↦
                  rw
                    (
                      last_heavy-step ch.points tipw i id entry blocks ch.weights found known,
                      lighter,
                    )
                    (rw (known, weigh_blocks)
                      (rw (lighter, weigh_blocks)
                        (weigh_blocks-tip_from tipw (suc i) blocks ch' t found before ids.1 at)))
              | inl heavy ↦
                  let facts = set_tip-tip ch' t id sumw ids.0 (omega arith) in
                  elim (Result-cases (set_tip ch' t id sumw).1) [
                    | inr (e, failed) ↦
                        rw (known, weigh_blocks)
                          (rw (heavy, weigh_blocks) (rw (failed, weigh_blocks) tt))
                    | inl (u, written) ↦
                        rw
                          (
                            last_heavy-step ch.points tipw i id entry blocks ch.weights found known,
                            heavy,
                          )
                          (rw (known, weigh_blocks)
                            (rw (heavy, weigh_blocks)
                              (rw (written, weigh_blocks)
                                (same_chain tipw i blocks (set_tip ch' t id sumw).0 ch' u
                                  (some (id, sumw)) before facts.1 facts.2
                                  (weigh_blocks-tip_from tipw (suc i) blocks
                                    (set_tip ch' t id sumw).0 u (some (id, sumw)) before ids.1
                                    (rw written at facts.0))))))
                  ]
            ]
      ]

  -- Weighing the blocks of a round, in the order of their ranks: if it returns, the tip is the last
  -- of them whose weight reaches the weight `tipw` of the tip at the start, with its weight, and the
  -- tip is as before if no block reaches it: an earlier block of the round gives way to a later one
  -- that is less heavy. The identifiers have 32 bytes, and the store keeps its promises.
  pub weigh_blocks-tip :
      (tipw : ℕ) (blocks : List (BlockId × Entry)) (ch : Chain) (t u : x.T)
      → AllIds blocks
      → (weigh_blocks tipw 0 blocks (ch, t)).1 ≡ ok u
      → x.read_tip u ≡ or_tip (last_heavy ch.points tipw 0 blocks ch.weights none) (x.read_tip t)
  weigh_blocks-tip tipw blocks ch t u ids h =
      Returns-eq-ok
        (λ v.
          x.read_tip v ≡ or_tip (last_heavy ch.points tipw 0 blocks ch.weights none) (x.read_tip t))
        _ (weigh_blocks-tip_from tipw 0 blocks ch t none (x.read_tip t) ids refl) h
