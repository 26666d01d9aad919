-- ===== src/Engine/Run.antt =====
-- The engine as a whole (`New` and `Handle` of exp/onl/engine/engine.go): the messages that it reads,
-- the messages that fall due, each of which is handled in a goroutine of its own, and the rounds of
-- the clock, in any order. A handler runs to its end before the next one starts.
use dd.Base.{
  ◌≡◌, refl, ◌∙◌, ℕ, ◌<◌, none, some, List, [], ◌∷◌, All, take, arith, Result-cases, Option-cases,
  Bool-cases, inl, inr, ltb, sym,
}
use dd.Base.Bytes.{u64_mod}
use dd.Externals.{Crypto, Radix}
use dd.Block.{Block, BlockId, block_hash}
use dd.Store.{StoreTx, StoreLaws}
use dd.Chain.{Chain}
use dd.Chain.Append.{append, block_after}
use dd.Chain.Ends.{IsChained, blocks}
use dd.Chain.Opens.{append-genesis_id}
use mathlib.Core.Path.{subst}
use dd.Kv.{read_stake}
use dd.State.{view}
use dd.Chain.Walk.{state_at, nil_id}
use dd.Engine.{Msg}
use dd.Engine.Ooo.{Ooo, new_ooo, handle, resolve}
use dd.Engine.Pool.{Pool}
use dd.Engine.Handlers.{handle_write}
use dd.Engine.Blocks.{Identity, Handled, Attempt, append_block, handle_block, handle_round, relay}
use dd.Engine.Retry.{on_error-keeps, handle_block-IsChained, own_round-IsChained}

-- `Engine`, with what the store of its chain holds
module _ ⦃r : Radix⦄ where
  pub record Engine (T : Type 0) : Type 0 where
    pub genesis : BlockId
    pub chain : Chain
    pub ooo : Ooo
    pub pool : Pool
    pub store : T

-- an event of the engine's goroutines
pub data Event : Type 0 where
  reads : (msg : Msg) → Event
  handles : (msg : Msg) → Event
  begins : (round time : ℕ) → Event

module _ ⦃c : Crypto⦄ ⦃r : Radix⦄ ⦃x : StoreTx⦄ where
  -- `New`: the genesis is resolved
  unfoldable pub new_engine : Chain → x.T → Engine x.T
  new_engine ch t =
      let genesis = block_hash ch.genesis_block in
      record {
        genesis = genesis;
        chain = ch;
        ooo = (resolve genesis new_ooo).0;
        pool = [];
        store = t;
      }

  -- what a handler has left
  unfoldable pub left : Engine x.T → Handled Chain x.T → Engine x.T
  left e h = record e {
    chain = h.chain;
    ooo = h.ooo;
    pool = h.pool;
    store = elim h.store [ none ↦ e.store | some u ↦ u ];
  }

  -- the attempts of a handler that is alone find the same store
  abbrev pub attempts : Engine x.T → List x.T
  attempts e = e.store ∷ e.store ∷ e.store ∷ e.store ∷ e.store ∷ []

  -- `Engine.Handle`; a sync only reads
  unfoldable pub handle_msg : Engine x.T → Msg → Engine x.T
  handle_msg e msg = elim msg.write [
    | some w ↦ record e { pool = (handle_write w e.pool).0 }
    | none ↦ elim msg.block [
      | some b ↦ left e (handle_block (attempts e) e.chain e.ooo e.pool b)
      | none ↦ e
    ]
  ]

  unfoldable pub step : Identity → ℕ → Engine x.T → Event → Engine x.T
  step idn maxw e (reads msg) = record e { ooo = (handle e.ooo msg).0 }
  step idn maxw e (handles msg) = handle_msg e msg
  step idn maxw e (begins round time) =
      left e (handle_round idn e.genesis maxw (attempts e) e.store e.chain e.ooo e.pool round time)

  unfoldable pub run_engine : Identity → ℕ → Engine x.T → List Event → Engine x.T
  run_engine idn maxw e [] = e
  run_engine idn maxw e (event ∷ events) = run_engine idn maxw (step idn maxw e event) events

  -- rounds are 64-bit words
  abbrev pub IsTyped : Event → Type 0
  IsTyped (reads msg) = Unit
  IsTyped (handles msg) = elim msg.block [ none ↦ Unit | some b ↦ b.round < u64_mod ]
  IsTyped (begins round time) = round < u64_mod

  -- the chain knows its genesis, and the stored blocks lead to it
  abbrev pub IsSound : BlockId → Engine x.T → Type 0
  IsSound gen e = (e.chain.genesis_id ≡ gen) × IsChained gen (blocks e.store)

module _ ⦃c : Crypto⦄ ⦃r : Radix⦄ ⦃x : StoreTx⦄ (laws : StoreLaws x) where
  append_block-genesis_id :
      (ts : List x.T) (ch : Chain) (b : Block) → (append_block ts ch b).0.genesis_id ≡ ch.genesis_id
  unfolding append_block
  append_block-genesis_id [] ch b = refl
  append_block-genesis_id (t ∷ ts) ch b =
      let kept = append-genesis_id laws ch t b in
      elim (Result-cases (append ch t b).1) [
        | inl (u, done) ↦ rw (done, append_block) kept
        | inr (e, failed) ↦
            rw (failed, append_block)
              (on_error-keeps (λ (q : Chain × Block × Attempt x.T). q.0.genesis_id ≡ ch.genesis_id)
                e _ _ _ kept
                (append_block-genesis_id ts (append ch t b).0 (block_after ch t b) ∙ kept) kept)
      ]

  handle_block-genesis_id :
      (ts : List x.T) (ch : Chain) (o : Ooo) (p : Pool) (b : Block)
      → (handle_block ts ch o p b).chain.genesis_id ≡ ch.genesis_id
  unfolding handle_block relay
  handle_block-genesis_id ts ch o p b = ground (arith, append_block-genesis_id (take 5 ts) ch b)

  handle_round-genesis_id :
      (idn : Identity) (genesis : BlockId) (maxw : ℕ) (ts : List x.T) (t : x.T) (ch : Chain)
      (o : Ooo) (p : Pool) (round time : ℕ)
      → (handle_round idn genesis maxw ts t ch o p round time).chain.genesis_id ≡ ch.genesis_id
  unfolding handle_round
  handle_round-genesis_id idn genesis maxw ts t ch o p round time =
      elim (Result-cases (state_at ch t nil_id)) [
        | inr (e, failed) ↦ rw (failed, handle_round) refl
        | inl (found, at) ↦ elim (Bool-cases (ltb (view found.1 (read_stake idn.pk)).0 1)) [
          | inl poor ↦ rw (at, poor, handle_round) refl
          | inr staked ↦ rw (at, staked, handle_round) (handle_block-genesis_id ts ch _ _ _)
        ]
      ]

  left-IsSound :
      (gen : BlockId) (e : Engine x.T) (h : Handled Chain x.T)
      → IsSound gen e
      → h.chain.genesis_id ≡ gen
      → ((u : x.T) → h.store ≡ some u → IsChained gen (blocks u))
      → IsSound gen (left e h)
  unfolding left
  left-IsSound gen e h sound same stored = elim (Option-cases h.store) [
    | inl unchanged ↦ (same, rw unchanged sound.1)
    | inr (u, changed) ↦ (same, rw changed (stored u changed))
  ]

  attempts-IsChained :
      (gen : BlockId) (e : Engine x.T)
      → IsSound gen e
      → All (λ t. IsChained e.chain.genesis_id (blocks t)) (attempts e)
  attempts-IsChained gen e sound =
      let found = subst (λ g. IsChained g (blocks e.store)) (sym sound.0) sound.1 in
      (found, (found, (found, (found, (found, tt)))))

  handle_msg-IsSound :
      (gen : BlockId) (e : Engine x.T) (msg : Msg)
      → IsTyped (handles msg)
      → IsSound gen e
      → IsSound gen (handle_msg e msg)
  unfolding handle_msg
  handle_msg-IsSound gen e msg typed sound = elim (Option-cases msg.write) [
    | inr (w, is_write) ↦ rw is_write sound
    | inl no_write ↦ elim (Option-cases msg.block) [
      | inl no_block ↦ rw (no_write, no_block) sound
      | inr (b, is_block) ↦
          rw (no_write, is_block)
            (left-IsSound gen e _ sound
              (handle_block-genesis_id (attempts e) e.chain e.ooo e.pool b ∙ sound.0)
              (λ u changed.
                subst (λ g. IsChained g (blocks u)) sound.0
                  (handle_block-IsChained laws (attempts e) e.chain e.ooo e.pool b u
                    (rw is_block at typed) (attempts-IsChained gen e sound) changed)))
    ]
  ]

  step-IsSound :
      (idn : Identity) (maxw : ℕ) (gen : BlockId) (e : Engine x.T) (event : Event)
      → IsTyped event
      → IsSound gen e
      → IsSound gen (step idn maxw e event)
  unfolding step
  step-IsSound idn maxw gen e (reads msg) typed sound = sound
  step-IsSound idn maxw gen e (handles msg) typed sound = handle_msg-IsSound gen e msg typed sound
  step-IsSound idn maxw gen e (begins round time) typed sound =
      left-IsSound gen e _ sound
        (handle_round-genesis_id idn e.genesis maxw (attempts e) e.store e.chain e.ooo e.pool round
            time
          ∙ sound.0)
        (λ u changed.
          subst (λ g. IsChained g (blocks u)) sound.0
            (own_round-IsChained laws idn e.genesis maxw (attempts e) e.store e.chain e.ooo e.pool
              round time u typed (attempts-IsChained gen e sound) changed))

  run_engine-IsSound :
      (idn : Identity) (maxw : ℕ) (gen : BlockId) (events : List Event) (e : Engine x.T)
      → All IsTyped events
      → IsSound gen e
      → IsSound gen (run_engine idn maxw e events)
  unfolding run_engine
  run_engine-IsSound idn maxw gen [] e typed sound = sound
  run_engine-IsSound idn maxw gen (event ∷ events) e typed sound =
      run_engine-IsSound idn maxw gen events (step idn maxw e event) typed.1
        (step-IsSound idn maxw gen e event typed.0 sound)

  -- However the engine is used, its store holds a chain. If the engine starts on a store in which
  -- the blocks lead to the genesis of the chain through falling rounds, then so they do after any
  -- sequence of messages that are read, messages that are handled, due or not, and rounds that
  -- begin, in which each handler runs to its end before the next one starts. Rounds are 64-bit
  -- words.
  pub run_engine-IsChained :
      (idn : Identity) (maxw : ℕ) (ch : Chain) (t : x.T) (events : List Event)
      → IsChained ch.genesis_id (blocks t)
      → All IsTyped events
      → IsChained ch.genesis_id (blocks (run_engine idn maxw (new_engine ch t) events).store)
  unfolding new_engine
  run_engine-IsChained idn maxw ch t events chained typed =
      (run_engine-IsSound idn maxw ch.genesis_id events (new_engine ch t) typed (refl, chained)).1
