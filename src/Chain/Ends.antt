-- ===== src/Chain/Ends.antt =====
-- Where walks end (`walk` and `state` of exp/onl/chain.go), and the form of a store in which they
-- do: its blocks lead to the genesis through falling rounds.
use dd.Base.{
  ◌≡◌, refl, ap, sym, ◌∙◌, ℕ, zero, suc, ◌<◌, true, false, List, [], ◌∷◌, ◌++◌, Result, ok, err,
  arith, Bool-cases, inl, inr,
}
use dd.Base.Bytes.{u64_mod, bytes_eq}
use dd.Externals.{Crypto}
use dd.Write.{Write}
use dd.Block.{Block, BlockId, block_hash, id_round, id_round-block_hash}
use dd.Store.{Entry, StoreTx}
use dd.Chain.Walk.{walk, walk_fuel, collect, log_of}
use mathlib.Core.List.{append_assoc, append-nil}

-- the block of what `Read` returned
abbrev pub block_of : Result Entry → Result Block
block_of (ok e) = ok e.block
block_of (err e) = err e

pub block_of-eq-ok :
    (res : Result Entry) {b : Block}
    → block_of res ≡ ok b
    → (e : Entry) × (res ≡ ok e) × (e.block ≡ b)
block_of-eq-ok (ok e) h = (e, refl, ground arith)
block_of-eq-ok (err e) h = cc

-- The blocks of a store, as a function of the identifier, lead to the genesis `gen`: it is there,
-- every block stands under its hash, and every other block has its predecessor, of a lower round.
pub record IsChained ⦃c : Crypto⦄ (gen : BlockId) (f : BlockId → Result Block) : Type 0 where
  pub root : (b : Block) × (f gen ≡ ok b)
  pub own : (id : BlockId) (b : Block) → f id ≡ ok b → (block_hash b ≡ id) × (b.round < u64_mod)
  pub linked :
      (id : BlockId) (b : Block)
      → f id ≡ ok b
      → bytes_eq id gen ≡ false
      → (p : Block) × (f b.prev ≡ ok p) × (p.round < b.round)

module _ ⦃x : StoreTx⦄ where
  abbrev pub blocks : x.T → BlockId → Result Block
  blocks t id = block_of (x.read id t)

  module _ {S : Type 0} (gen : BlockId) (f : BlockId → Entry → S × x.T → Result (S × x.T)) (n : ℕ)
      (id : BlockId) (st st' : S × x.T) (e : Entry) (at : x.read id st.1 ≡ ok e)
      (done : f id e st ≡ ok st') where
    pub walk_last : bytes_eq id gen ≡ true → walk gen f (suc n) id st ≡ ok st'
    unfolding walk
    walk_last h = rw (at, walk) (rw (done, walk) (rw (h, walk) refl))

    pub walk_next :
        bytes_eq id gen ≡ false → walk gen f (suc n) id st ≡ walk gen f n e.block.prev st'
    unfolding walk
    walk_next h = rw (at, walk) (rw (done, walk) (rw (h, walk) refl))

  -- The blocks from the genesis to `id`, by their writes: the specification of a walk.
  pub data Ancestry (gen : BlockId) (t : x.T) : BlockId → List (List Write) → Type 0 where
    genesis :
        (id : BlockId) (b : Block)
        → blocks t id ≡ ok b
        → bytes_eq id gen ≡ true
        → Ancestry gen t id (b.writes ∷ [])
    after :
        (id : BlockId) (b : Block) (log : List (List Write))
        → blocks t id ≡ ok b
        → bytes_eq id gen ≡ false
        → Ancestry gen t b.prev log
        → Ancestry gen t id (log ++ b.writes ∷ [])

module _ ⦃c : Crypto⦄ ⦃x : StoreTx⦄ (gen : BlockId) (t : x.T)
    (chained : IsChained gen (blocks t)) where
  round-id : (id : BlockId) (b : Block) → blocks t id ≡ ok b → id_round id ≡ b.round
  round-id id b h =
      let own = chained.own id b h in ap id_round (sym own.0) ∙ id_round-block_hash b own.1

  -- The walk of `state` ends, and has collected the ancestry in front of what it began with.
  pub walk-collect :
      (fuel : ℕ) (id : BlockId) (b : Block) (acc : List (List Write))
      → blocks t id ≡ ok b
      → b.round < fuel
      → (log : List (List Write)) × (walk gen collect fuel id (acc, t) ≡ ok (log ++ acc, t))
        × Ancestry gen t id log
  walk-collect zero id b acc h lt = absurd (omega arith)
  walk-collect (suc fuel) id b acc h lt =
      let (e, at, same) = block_of-eq-ok (x.read id t) h in
      elim (Bool-cases (bytes_eq id gen)) [
        | inl last ↦ (
          b.writes ∷ [],
          walk_last gen collect fuel id (acc, t) (e.block.writes ∷ acc, t) e at refl last
              ∙ ap (λ (v : Block). ok (v.writes ∷ acc, t)) same,
          genesis id b h last,
        )
        | inr more ↦
            let (p, at_p, lower) = chained.linked id b h more in
            let (log, ends, path) =
              walk-collect fuel b.prev p (b.writes ∷ acc) at_p (omega arith) in
            (
              log ++ b.writes ∷ [],
              walk_next gen collect fuel id (acc, t) (e.block.writes ∷ acc, t) e at refl more
                  ∙ ap (λ (v : Block). walk gen collect fuel v.prev (v.writes ∷ acc, t)) same
                  ∙ ends
                  ∙ ap (λ l. ok (l, t)) (sym (append_assoc log (b.writes ∷ []) acc)),
              after id b log h more path,
            )
      ]

  -- For every block of such a store, `walk` comes to the genesis: the log that `state` replays is
  -- there, and it is the ancestry of the block, oldest block first.
  pub log_of-ends :
      (id : BlockId) (b : Block)
      → blocks t id ≡ ok b
      → (log : List (List Write)) × (log_of gen id t ≡ ok log) × Ancestry gen t id log
  unfolding log_of
  log_of-ends id b h =
      let (log, ends, path) =
        walk-collect (walk_fuel id) id b [] h (omega (arith, round-id id b h)) in
      (log, rw ends (ap ok (append-nil log)), path)
