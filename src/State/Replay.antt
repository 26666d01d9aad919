-- ===== src/State/Replay.antt =====
-- Replaying a log of blocks (`NewState` of exp/onl/state.go).
use dd.Base.{
  ◌≡◌, refl, ◌∙◌, sym, Bool, false, List, [], ◌∷◌, ◌++◌, Result, ok, err, ◌>>=◌, All, arith, ◌||◌,
}
use dd.Base.Bytes.{Bytes, bytes_eq, bytes_eq_iff}
use dd.Base.Map.{get, has, put, has-put}
use dd.Externals.{Radix}
use dd.Write.{Write}
use dd.State.{State, apply, replay_block, replay_log, new_state, empty_state}
use dd.State.Apply.{apply-writes, apply-fresh}

-- the writes of a log, in order
abbrev pub all_writes : List (List Write) → List Write
all_writes [] = []
all_writes (ws ∷ log) = ws ++ all_writes log

abbrev pub nonces : List Write → List Bytes
nonces [] = []
nonces (w ∷ ws) = w.nonce ∷ nonces ws

abbrev pub mem : Bytes → List Bytes → Bool
mem n [] = false
mem n (m ∷ ms) = bytes_eq m n || mem n ms

-- no item is there twice
abbrev pub Distinct : List Bytes → Type 0
Distinct [] = Unit
Distinct (n ∷ ns) = (mem n ns ≡ false) × Distinct ns

module _ ⦃r : Radix⦄ where
  pub replay_block-append :
      (ws vs : List Write) (s : State)
      → replay_block s (ws ++ vs) ≡ (replay_block s ws >>= λ t. replay_block t vs)
  unfolding replay_block
  replay_block-append [] vs s = refl
  replay_block-append (w ∷ ws) vs s = ground (arith, replay_block-append ws vs (apply s w false).0)

  pub replay_log-eq-replay_block :
      (log : List (List Write)) (s : State) → replay_log s log ≡ replay_block s (all_writes log)
  unfolding replay_log
  replay_log-eq-replay_block [] s = unfold replay_block in refl
  replay_log-eq-replay_block (ws ∷ log) s =
      rw replay_block-append (go (replay_log-eq-replay_block log) (replay_block s ws))
    where
      go :
          ((t : State) → replay_log t log ≡ replay_block t (all_writes log))
          → (res : Result State)
          → (elim res [ ok t ↦ replay_log t log | err e ↦ err e ])
            ≡ (res >>= λ t. replay_block t (all_writes log))
      go ih (ok t) = ih t
      go ih (err e) = refl

  -- the nonces of `s`, and none of `ns`
  abbrev AllFresh : State → List Bytes → Type 0
  AllFresh s ns = All (λ n. has n s.writes ≡ false) ns

  AllFresh-before :
      (s t : State) (n : Bytes) (ns : List Bytes)
      → t.writes ≡ put n tt s.writes
      → AllFresh t ns
      → AllFresh s ns × (mem n ns ≡ false)
  AllFresh-before s t n [] e h = (tt, refl)
  AllFresh-before s t n (m ∷ ms) e h = ground (
    arith,
    has-put n m tt s.writes,
    bytes_eq_iff m n,
    bytes_eq_iff n m,
    AllFresh-before s t n ms e h.1,
  )

  replay_block-step :
      (w : Write) (ws : List Write) (s t : State)
      → replay_block s (w ∷ ws) ≡ ok t
      → ((apply s w false).2 ≡ ok tt) × (replay_block (apply s w false).0 ws ≡ ok t)
  unfolding replay_block
  replay_block-step w ws s t h = ground arith

  replay_block-fresh :
      (ws : List Write) (s t : State)
      → replay_block s ws ≡ ok t
      → AllFresh s (nonces ws)
        × Distinct (nonces ws)
        × ((n : Bytes) → has n t.writes ≡ (mem n (nonces ws) || has n s.writes))
  replay_block-fresh [] s t h = (tt, tt, λ n. unfold replay_block in ground arith)
  replay_block-fresh (w ∷ ws) s t h =
      let step = replay_block-step w ws s t h in
      let later = replay_block-fresh ws (apply s w false).0 t step.1 in
      let marked = apply-writes s w step.0 in
      let before = AllFresh-before s (apply s w false).0 w.nonce (nonces ws) marked later.0 in
      (
        (apply-fresh s w false step.0, before.0),
        (before.1, later.1),
        λ n. ground (arith, later.2 n, marked, has-put w.nonce n tt s.writes),
      )

  -- A log that can be replayed has no nonce twice, in one block or in several, and the nonces of
  -- the state are those of the log.
  pub new_state-nonces :
      (log : List (List Write)) (s : State)
      → new_state log ≡ ok s
      → Distinct (nonces (all_writes log))
        × ((n : Bytes) → has n s.writes ≡ mem n (nonces (all_writes log)))
  new_state-nonces log s h =
      let replayed : replay_block empty_state (all_writes log) ≡ ok s =
        sym (replay_log-eq-replay_block log empty_state) ∙ (unfold new_state in h) in
      let facts = replay_block-fresh (all_writes log) empty_state s replayed in
      (facts.1, λ n. facts.2 n ∙ (unfold has get in ground arith))
