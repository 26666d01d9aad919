-- ===== src/Wall/Replayed.antt =====
-- The walk of a chain and its index of unspent outputs (exp/onl/wall/chain/chain.go), for chains in
-- form.
use dd.Base.{
  ◌≡◌, refl, ap, sym, ◌∙◌, ℕ, zero, suc, ◌≤◌, ◌<◌, Bool, true, false, Option, none, some,
  if◌then◌else◌, List, [], ◌∷◌, Result, Result-cases, ok, err, arith, length, Bool-cases, inl, inr,
}
use dd.Base.Bytes.{Bytes, bytes_eq, bytes_eq_sound, bytes_eq_refl}
use dd.Base.Inversion.{some-injective}
use dd.Base.Map.{Map, get, has}
use dd.Wall.{TrOut, WallBlock}
use dd.Wall.Chain.{MemChain, walk_blocks, fuel_of, read_wall, index_block, index_utro}
use dd.Wall.Form.{IsWall}
use dd.Wall.Unspent.{
  Ancestry, history, AreDetermined, NoneSpendsItself, replay_transfers, replay-indexed,
  walk-history, indexed, or_else,
}

nothing_before :
    (g : Option TrOut) (s : Bool) (k : Bytes) → or_else g (if s then none else get k []) ≡ g
unfolding get
nothing_before none true k = refl
nothing_before none false k = refl
nothing_before (some out) s k = refl

index_utro-walk :
    (gen : Bytes) (blocks : Map WallBlock) (id k : Bytes)
    → get k (index_utro gen blocks id)
      ≡ get k (walk_blocks gen blocks index_block (fuel_of id blocks) id ([], [])).0.1
unfolding index_utro
index_utro-walk gen blocks id k = refl

-- the calls of a callback, up to its first error
unfoldable pub visit :
    {S : Type 0} → (WallBlock → S → Result S) → List WallBlock → S → S × Result (Unit {0})
visit f [] s = (s, ok tt)
visit f (b ∷ bs) s = elim (f b s) [ err e ↦ (s, err e) | ok s' ↦ visit f bs s' ]

walk_visits :
    {S : Type 0} (gen : Bytes) (blocks : Map WallBlock) (f : WallBlock → S → Result S) (fuel : ℕ)
    (id : Bytes) (bs : List WallBlock) (s : S)
    → Ancestry gen blocks id bs
    → length bs ≤ fuel
    → walk_blocks gen blocks f fuel id s ≡ visit f bs s
unfolding walk_blocks visit read_wall
walk_visits gen blocks f zero _ _ s (Ancestry.origin at) h = absurd (omega arith)
walk_visits gen blocks f zero _ _ s (Ancestry.after at older a) h = absurd (omega arith)
walk_visits gen blocks f (suc fuel) _ _ s (Ancestry.origin {b = b} at) h =
    rw (at, walk_blocks)
      (elim (Result-cases (f b s)) [
        | inl (s', returned) ↦ rw (returned, visit) (rw (bytes_eq_refl gen) refl)
        | inr (e, failed) ↦ rw (failed, visit) refl
      ])
walk_visits gen blocks f (suc fuel) id _ s (Ancestry.after {b = b} {bs = bs} at older a) h =
    rw (at, walk_blocks)
      (elim (Result-cases (f b s)) [
        | inl (s', returned) ↦
            rw (returned, visit)
              (rw older (walk_visits gen blocks f fuel b.vote.prev bs s' a (omega arith)))
        | inr (e, failed) ↦ rw (failed, visit) refl
      ])

module _ {Decimal : Type 0} (ch : MemChain Decimal) (w : IsWall ch) where
  ancestry_within :
      (fuel : ℕ) (id : Bytes) (b : WallBlock)
      → get id ch.blocks ≡ some b
      → b.vote.round < fuel
      → (bs : List WallBlock) × Ancestry ch.genesis ch.blocks id bs
  ancestry_within zero id b at h = absurd (omega arith)
  ancestry_within (suc fuel) id b at h = elim (Bool-cases (bytes_eq id ch.genesis)) [
    | inl same ↦
        let e = bytes_eq_sound id ch.genesis same in
        (b ∷ [], rw e (Ancestry.origin (sym (ap (λ k. get k ch.blocks) e) ∙ at)))
    | inr older ↦
        let (p, prev, lower) = w.linked id b at older in
        let (bs, before) = ancestry_within fuel b.vote.prev p prev (omega arith) in
        (b ∷ bs, Ancestry.after at older before)
  ]

  ancestry_length :
      (id : Bytes) (b : WallBlock) (bs : List WallBlock)
      → Ancestry ch.genesis ch.blocks id bs
      → get id ch.blocks ≡ some b
      → length bs ≤ suc b.vote.round
  ancestry_length _ b _ (Ancestry.origin found) at = omega arith
  ancestry_length id b _ (Ancestry.after {b = a} {bs = bs} found older before) at =
      let (p, prev, lower) = w.linked id a found older in
      let shorter = ancestry_length a.vote.prev p bs before prev in
      let same : a.vote.round ≡ b.vote.round =
        ap (λ (v : WallBlock). v.vote.round) (some-injective (sym found ∙ at)) in
      omega (arith, shorter, lower, same)

  -- the block that an ancestry starts with
  ancestry_start :
      (id : Bytes) (bs : List WallBlock)
      → Ancestry ch.genesis ch.blocks id bs
      → (b : WallBlock) × (get id ch.blocks ≡ some b)
  ancestry_start _ _ (Ancestry.origin {b = b} found) = (b, found)
  ancestry_start _ _ (Ancestry.after {b = b} found _ _) = (b, found)

  fuel_of-at :
      (id : Bytes) (b : WallBlock)
      → get id ch.blocks ≡ some b
      → fuel_of id ch.blocks ≡ suc b.vote.round
  unfolding fuel_of
  fuel_of-at id b at = ground (arith, at)

  fuel_of-enough :
      (id : Bytes) (bs : List WallBlock)
      → Ancestry ch.genesis ch.blocks id bs
      → length bs ≤ fuel_of id ch.blocks
  fuel_of-enough id bs a =
      let (b, at) = ancestry_start id bs a in
      let short = ancestry_length id b bs a at in rw (fuel_of-at id b at) short

  -- The index of the unspent outputs at a block, which reads the chain backwards, has what the
  -- replay of the transfers forwards leaves, from the genesis to the block: every transfer takes its
  -- inputs out and puts its outputs in. The chain is well-formed, no transfer spends an output of
  -- its own, and a reference stands for one output.
  pub index_utro-replay :
      (content : Bytes → TrOut) (id : Bytes) (bs : List WallBlock)
      → Ancestry ch.genesis ch.blocks id bs
      → AreDetermined content (history bs)
      → NoneSpendsItself (history bs)
      → (k : Bytes)
      → get k (index_utro ch.genesis ch.blocks id) ≡ get k (replay_transfers (history bs) [])
  index_utro-replay content id bs a determined apart k =
      let walked =
        walk-history ch.genesis ch.blocks (fuel_of id ch.blocks) id bs ([], []) a
          (fuel_of-enough id bs a) in
      index_utro-walk ch.genesis ch.blocks id k
      ∙ ap (λ r. get k r.0.1) walked
      ∙ sym (
          replay-indexed content k (history bs) [] determined apart
          ∙ nothing_before (get k (indexed (history bs)).1) (has k (indexed (history bs)).0) k)

  -- Every walk of a well-formed chain from a block that is there, with any callback, calls it on the
  -- blocks of the ancestry one after the other, each with what the one before it has returned, down
  -- to the genesis or to the first error of the callback; the fuel is enough.
  pub walk_blocks-visit :
      {S : Type 0} (f : WallBlock → S → Result S) (s : S) (id : Bytes) (b : WallBlock)
      → get id ch.blocks ≡ some b
      → (bs : List WallBlock) × Ancestry ch.genesis ch.blocks id bs
        × (walk_blocks ch.genesis ch.blocks f (fuel_of id ch.blocks) id s ≡ visit f bs s)
  walk_blocks-visit f s id b at =
      let (bs, a) = ancestry_within (suc b.vote.round) id b at (omega arith) in
      (
        bs,
        a,
        walk_visits ch.genesis ch.blocks f (fuel_of id ch.blocks) id bs s a
            (fuel_of-enough id bs a),
      )
