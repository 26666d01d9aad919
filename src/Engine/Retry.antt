-- ===== src/Engine/Retry.antt =====
-- What handling a block does to the store (exp/onl/engine/engine.go).
use mathlib.Core.Path.{subst}
use dd.Base.{
  ◌≡◌, refl, sym, ◌∙◌, ℕ, zero, suc, ◌<◌, true, Option, none, some, List, [], ◌∷◌, Error,
  block_exist, append_conflict, take, All, arith, Result-cases, inl, inr, Bool-cases, ltb,
}
use dd.Base.Bytes.{u64_mod}
use dd.Externals.{Crypto, Radix}
use dd.Block.{Block, BlockId, append_write}
use dd.Store.{StoreTx, StoreLaws}
use dd.Chain.{Chain}
use dd.Chain.Append.{append, block_after}
use dd.Chain.Ends.{IsChained, blocks}
use dd.Chain.Keeps.{append-IsChained}
use dd.Chain.Opens.{append-genesis_id}
use dd.Engine.Ooo.{Ooo, resolve_round}
use dd.Engine.Pool.{Pool, pick, take_write}
use dd.State.{State, apply, view}
use dd.Chain.Walk.{state_at, nil_id}
use dd.Kv.{read_stake}
use dd.Engine.Blocks.{
  Attempt, stored, exists, refused, lost, append_block, handle_block, relay, on_error, Identity,
  handle_round, mint_block,
}

pub on_error-keeps :
    {A : Type 0} (P : A → Type 0) (e : Error) (there retry other : A)
    → P there
    → P retry
    → P other
    → P (on_error e there retry other)
on_error-keeps P block_exist there retry other a b d = a
on_error-keeps P append_conflict there retry other a b d = b
on_error-keeps P e there retry other a b d = d

module _ ⦃c : Crypto⦄ ⦃r : Radix⦄ ⦃x : StoreTx⦄ (laws : StoreLaws x) where
  block_after-round : (ch : Chain) (t : x.T) (b : Block) → (block_after ch t b).round ≡ b.round
  unfolding block_after
  block_after-round ch t b = ground arith

  -- what is stored is a chain
  abbrev EndsChained : BlockId → Attempt x.T → Type 0
  EndsChained gen (stored u) = IsChained gen (blocks u)
  EndsChained gen exists = Unit
  EndsChained gen (refused e) = Unit
  EndsChained gen lost = Unit

  append_block-EndsChained :
      (gen : BlockId) (ts : List x.T) (ch : Chain) (b : Block)
      → ch.genesis_id ≡ gen
      → b.round < u64_mod
      → All (λ t. IsChained gen (blocks t)) ts
      → EndsChained gen (append_block ts ch b).2
  unfolding append_block
  append_block-EndsChained gen [] ch b same bound all = tt
  append_block-EndsChained gen (t ∷ ts) ch b same bound all =
      elim (Result-cases (append ch t b).1) [
        | inl (u, done) ↦
            rw (done, append_block)
              (subst (λ g. IsChained g (blocks u)) same
                (append-IsChained laws ch t u b bound
                  (subst (λ g. IsChained g (blocks t)) (sym same) all.0) done))
        | inr (e, failed) ↦
            let again =
              append_block-EndsChained gen ts (append ch t b).0 (block_after ch t b)
                (append-genesis_id laws ch t b ∙ same)
                (omega (arith, block_after-round ch t b, bound)) all.1 in
            rw (failed, append_block)
              (on_error-keeps (λ (q : Chain × Block × Attempt x.T). EndsChained gen q.2) e _ _ _ tt
                again tt)
      ]

  -- what the store holds afterwards, if it changed
  abbrev store_of : Attempt x.T → Option x.T
  store_of (stored u) = some u
  store_of exists = none
  store_of (refused e) = none
  store_of lost = none

  EndsChained-store :
      (gen : BlockId) (end : Attempt x.T) (u : x.T)
      → EndsChained gen end
      → store_of end ≡ some u
      → IsChained gen (blocks u)
  EndsChained-store gen (stored v) u h e =
      subst (λ (o : Option x.T). elim o [ none ↦ Unit | some w ↦ IsChained gen (blocks w) ]) e h
  EndsChained-store gen exists u h e = cc
  EndsChained-store gen (refused f) u h e = cc
  EndsChained-store gen lost u h e = cc

  handle_block-store :
      (ts : List x.T) (ch : Chain) (o : Ooo) (p : Pool) (b : Block)
      → (handle_block ts ch o p b).store ≡ store_of (append_block (take 5 ts) ch b).2
  unfolding handle_block relay
  handle_block-store ts ch o p b = ground arith

  All-take : {A : Type 0} (P : A → Type 0) (n : ℕ) (xs : List A) → All P xs → All P (take n xs)
  All-take P zero xs h = tt
  All-take P (suc n) [] h = tt
  All-take P (suc n) (y ∷ xs) h = (h.0, All-take P n xs h.1)

  pub handle_block-IsChained :
      (ts : List x.T) (ch : Chain) (o : Ooo) (p : Pool) (b : Block) (u : x.T)
      → b.round < u64_mod
      → All (λ t. IsChained ch.genesis_id (blocks t)) ts
      → (handle_block ts ch o p b).store ≡ some u
      → IsChained ch.genesis_id (blocks u)
  handle_block-IsChained ts ch o p b u bound all h =
      EndsChained-store ch.genesis_id (append_block (take 5 ts) ch b).2 u
        (append_block-EndsChained ch.genesis_id (take 5 ts) ch b refl bound (All-take _ 5 ts all))
        (sym (handle_block-store ts ch o p b) ∙ h)

  pick-round :
      (m : ℕ) (p : Pool) (s : State) (b : Block) → (pick (take_write m) s p b).2.round ≡ b.round
  unfolding pick take_write append_write
  pick-round m [] s b = refl
  pick-round m ((n, w) ∷ p) s b = ground (
    arith,
    pick-round m p (apply s w true).0 b,
    pick-round m p (apply s w true).0 (take_write m (apply s w true).1 b).0,
  )

  pub own_round-IsChained :
      (idn : Identity) (genesis : BlockId) (maxw : ℕ) (ts : List x.T) (t : x.T) (ch : Chain)
      (o : Ooo) (p : Pool) (round time : ℕ) (v : x.T)
      → round < u64_mod
      → All (λ t. IsChained ch.genesis_id (blocks t)) ts
      → (handle_round idn genesis maxw ts t ch o p round time).store ≡ some v
      → IsChained ch.genesis_id (blocks v)
  unfolding handle_round mint_block
  own_round-IsChained idn genesis maxw ts t ch o p round time v bound all h =
      elim (Result-cases (state_at ch t nil_id)) [
        | inr (e, failed) ↦ cc (rw (failed, handle_round) at h)
        | inl (found, at) ↦
            let s = found.1 in
            let minted = mint_block idn time found.0 genesis round in
            elim (Bool-cases (ltb (view s (read_stake idn.pk)).0 1)) [
              | inl poor ↦ cc (rw (poor, handle_round) at (rw (at, handle_round) at h))
              | inr staked ↦
                  handle_block-IsChained ts ch (resolve_round round o).0
                    (pick (take_write maxw) s p minted).1 _ v
                    (omega (arith, bound, pick-round maxw p s minted)) all
                    (rw (staked, handle_round) at (rw (at, handle_round) at h))
            ]
      ]

  -- A block that is handled, from the network or of the member's own round, leaves a chain in the
  -- store: if every attempt finds a store in which the blocks lead to the genesis through falling
  -- rounds, then so do those of the store that the handler leaves, if it leaves one, whichever
  -- attempt goes through and whatever commit times the attempts before it have set.
  pub handle_round-IsChained :
      (idn : Identity) (maxw : ℕ) (ts : List x.T) (t : x.T) (ch : Chain) (o : Ooo) (p : Pool)
      (b : Block) (round time : ℕ) (u v : x.T)
      → b.round < u64_mod
      → round < u64_mod
      → All (λ t. IsChained ch.genesis_id (blocks t)) ts
      → (handle_block ts ch o p b).store ≡ some u
      → (handle_round idn ch.genesis_id maxw ts t ch o p round time).store ≡ some v
      → IsChained ch.genesis_id (blocks u) × IsChained ch.genesis_id (blocks v)
  unfolding handle_round mint_block
  handle_round-IsChained idn maxw ts t ch o p b round time u v hb hr all hu hv = (
    handle_block-IsChained ts ch o p b u hb all hu,
    own_round-IsChained idn ch.genesis_id maxw ts t ch o p round time v hr all hv,
  )
