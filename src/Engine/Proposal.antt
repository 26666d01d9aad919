-- ===== src/Engine/Proposal.antt =====
-- The writes of a proposal (`handleRound` of exp/onl/engine/engine.go, with `Pick` of mempool.go).
use mathlib.Core.Path.{subst}
use mathlib.Core.List.{append-nil, append_assoc}
use dd.Base.{
  some, ◌≡◌, refl, ap, sym, ◌∙◌, ℕ, ◌+◌, ◌≤◌, ◌<◌, Bool, true, false, List, [], ◌∷◌, ◌++◌, ok, err,
  Error, length, arith, All, Bool-cases, Result-cases, inl, inr,
}
use dd.Base.Bytes.{u64_mod, bytes_eq_iff}
use dd.Base.Map.{has, put, has-put}
use dd.Externals.{Radix}
use dd.Ssi.{Oracle, key_set, commit, handle_commit}
use dd.Ssi.Clock.{oracle_commit_lem}
use dd.Write.{Write}
use dd.State.{State, apply, replay_block}
use dd.State.Replay.{Distinct, nonces, mem}
use dd.State.Apply.{apply-dry_rows, apply-fresh}
use dd.Block.{Block, append_write}
use dd.Engine.Pool.{Pool, pick, take_write, pooled}

module _ ⦃r : Radix⦄ where
  -- a dry run that fails leaves the clock as it is
  apply-dry_failed :
      (d : State) (w : Write) (e : Error)
      → d.db.oracle.time + 1 < u64_mod
      → (apply d w true).2 ≡ err e
      → (apply d w true).0.db.oracle ≡ d.db.oracle
  unfolding apply commit handle_commit
  apply-dry_failed d w e room h = ground (
    arith,
    oracle_commit_lem d.db.oracle w.txd.read_rows (key_set w.txd.write_rows) w.txd.time_start room,
  )

  -- What passes a dry run passes a real one on a state with the same clock that has not seen the
  -- nonce, and the clocks stay the same.
  apply-dry_passed :
      (d s : State) (w : Write)
      → d.db.oracle.time + 1 < u64_mod
      → d.db.oracle ≡ s.db.oracle
      → has w.nonce s.writes ≡ false
      → (apply d w true).2 ≡ ok tt
      → let w' = (apply d w true).1 in
        ((apply s w' false).2 ≡ ok tt)
        × ((apply d w true).0.db.oracle ≡ (apply s w' false).0.db.oracle)
        × ((apply s w' false).0.writes ≡ put w.nonce tt s.writes)
        × ((apply d w true).0.db.oracle.time ≤ d.db.oracle.time + 1)
  unfolding apply commit handle_commit
  apply-dry_passed d s w room same fresh h = ground (
    arith,
    same,
    oracle_commit_lem d.db.oracle w.txd.read_rows (key_set w.txd.write_rows) w.txd.time_start room,
    oracle_commit_lem s.db.oracle w.txd.read_rows (key_set w.txd.write_rows) w.txd.time_start
        (omega (arith, room, ap (λ (o : Oracle). o.time) same)),
  )

  -- the two states have seen the same of the nonces of the pool
  abbrev Agree : State → State → Pool → Type 0
  Agree d s p = All (λ n. has n s.writes ≡ has n d.writes) (nonces (pooled p))

  Agree-refl : (s : State) (p : Pool) → Agree s s p
  Agree-refl s [] = tt
  Agree-refl s ((n, w) ∷ p) = (refl, Agree-refl s p)

  -- a dry run marks nothing
  Agree-dry : (d s : State) (w : Write) (p : Pool) → Agree d s p → Agree (apply d w true).0 s p
  Agree-dry d s w [] k = tt
  Agree-dry d s w ((m, v) ∷ p) k =
      (ground (arith, k.0, (apply-dry_rows d w).1), Agree-dry d s w p k.1)

  -- a nonce that is none of the pool's can be marked
  Agree-put :
      (d s t : State) (n : List ℕ) (p : Pool)
      → t.writes ≡ put n tt s.writes
      → mem n (nonces (pooled p)) ≡ false
      → Agree d s p
      → Agree d t p
  Agree-put d s t n [] e h k = tt
  Agree-put d s t n ((m, w) ∷ p) e h k = (
    ground (
      arith,
      e,
      has-put n w.nonce tt s.writes,
      bytes_eq_iff n w.nonce,
      bytes_eq_iff w.nonce n,
      k.0,
    ),
    Agree-put d s t n p e (ground arith) k.1,
  )

  append_write-more :
      (b : Block) (w : Write) (ws : List Write)
      → (append_write b (some w ∷ [])).writes ++ ws ≡ b.writes ++ w ∷ ws
  unfolding append_write
  append_write-more b w ws = append_assoc b.writes (w ∷ []) ws

  -- the block before a pick, and what the pick adds
  abbrev Adds : State → Block → Block → Type 0
  Adds s b b' =
      (ws : List Write) × (t : State) × (b'.writes ≡ b.writes ++ ws) × (replay_block s ws ≡ ok t)

  replay_block-next :
      (w : Write) (ws : List Write) (s : State)
      → (apply s w false).2 ≡ ok tt
      → replay_block s (w ∷ ws) ≡ replay_block (apply s w false).0 ws
  unfolding replay_block
  replay_block-next w ws s h = rw (h, replay_block) refl

  module _ {S : Type 0} (f : Write → S → S × Bool) (d : State) (n : List ℕ) (w : Write) (p : Pool)
      (acc : S) where
    pick-failed :
        (e : Error)
        → (apply d w true).2 ≡ err e
        → (pick f d ((n, w) ∷ p) acc).2 ≡ (pick f (apply d w true).0 p acc).2
    unfolding pick
    pick-failed e h = rw (h, pick) refl

    pick-last :
        (apply d w true).2 ≡ ok tt
        → (f (apply d w true).1 acc).1 ≡ true
        → (pick f d ((n, w) ∷ p) acc).2 ≡ (f (apply d w true).1 acc).0
    unfolding pick
    pick-last h k = rw (h, pick) (rw (k, pick) refl)

    pick-more :
        (apply d w true).2 ≡ ok tt
        → (f (apply d w true).1 acc).1 ≡ false
        → (pick f d ((n, w) ∷ p) acc).2
          ≡ (pick f (apply d w true).0 p (f (apply d w true).1 acc).0).2
    unfolding pick
    pick-more h k = rw (h, pick) (rw (k, pick) refl)

  pick-Adds :
      (maxw : ℕ) (p : Pool) (d s : State) (b : Block)
      → d.db.oracle ≡ s.db.oracle
      → d.db.oracle.time + length p < u64_mod
      → Agree d s p
      → Distinct (nonces (pooled p))
      → Adds s b (pick (take_write maxw) d p b).2
  unfolding pick take_write append_write
  pick-Adds maxw [] d s b same room agree distinct =
      ([], s, sym (append-nil b.writes), (unfold replay_block in refl))
  pick-Adds maxw ((n, w) ∷ p) d s b same room agree distinct =
      elim (Result-cases (apply d w true).2) [
        | inr (e, failed) ↦
            let clock = apply-dry_failed d w e (omega (arith, room)) failed in
            subst (Adds s b) (sym (pick-failed (take_write maxw) d n w p b e failed)) (
              pick-Adds maxw p (apply d w true).0 s b (clock ∙ same)
                (omega (arith, room, ap (λ (o : Oracle). o.time) clock)) (Agree-dry d s w p agree.1)
                distinct.1)
        | inl (u, passed) ↦
            let w' = (apply d w true).1 in
            let b' = append_write b (some w' ∷ []) in
            let facts =
              apply-dry_passed d s w (omega (arith, room)) same
                (agree.0 ∙ apply-fresh d w true passed) passed in
            let s' = (apply s w' false).0 in
            elim (Bool-cases (take_write maxw w' b).1) [
              | inl full ↦
                  subst (Adds s b) (sym (pick-last (take_write maxw) d n w p b passed full)) (
                    w' ∷ [],
                    s',
                    (unfold take_write append_write in refl),
                    replay_block-next w' [] s facts.0 ∙ (unfold replay_block in refl),
                  )
              | inr room_left ↦
                  let (ws, t, added, replayed) =
                    pick-Adds maxw p (apply d w true).0 s' b' facts.1 (omega (arith, room, facts.3))
                      (Agree-put (apply d w true).0 s s' w.nonce p facts.2 distinct.0
                        (Agree-dry d s w p agree.1))
                      distinct.1 in
                  subst (Adds s b) (sym (pick-more (take_write maxw) d n w p b passed room_left)) (
                    w' ∷ ws,
                    t,
                    added ∙ append_write-more b w' ws,
                    replay_block-next w' ws s facts.0 ∙ replayed,
                  )
            ]
      ]

  -- A proposal is valid. The writes that `handleRound` picks from a pool for a block without
  -- writes, by dry runs on the state of the tip, can be applied for real to that state, in their
  -- order, with no error, also when the pool still has writes that the state has seen; where the
  -- nonces of the pool are distinct, and the clock has room for the pool.
  pub pick-applies :
      (maxw : ℕ) (p : Pool) (s : State) (b : Block)
      → b.writes ≡ []
      → s.db.oracle.time + length p < u64_mod
      → Distinct (nonces (pooled p))
      → (t : State) × (replay_block s (pick (take_write maxw) s p b).2.writes ≡ ok t)
  pick-applies maxw p s b blank room distinct =
      let (ws, t, added, replayed) = pick-Adds maxw p s s b refl room (Agree-refl s p) distinct in
      (t, ap (replay_block s) (added ∙ ap (λ l. l ++ ws) blank) ∙ replayed)
