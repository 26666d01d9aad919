-- ===== src/State.antt =====
-- The state of a chain (exp/onl/state.go): the database that the writes of its blocks build, and
-- the nonces of the writes that are part of it.
pub mod Apply
pub mod Replay
use dd.Base.{
  ℕ, Bool, true, false, Option, none, some, List, [], ◌∷◌, Result, ok, err, Error, conflict,
  already_applied, apply_conflict, wrap, length, ltb, if◌then◌else◌,
}
use dd.Base.Bytes.{Bytes}
use dd.Base.Map.{Map, has, put}
use dd.Externals.{Crypto, Radix}
use dd.Ssi.{Db, Tx, TxData, new_db, new_tx, commit}
use dd.Ssi.Client.{Client, run}
use dd.Write.{Write}

-- an array of zero bytes
abbrev pub zeros : ℕ → Bytes
zeros ℕ.zero = []
zeros (ℕ.suc n) = 0 ∷ zeros n

-- the error of the database under the names of `onl`
abbrev pub wrap_commit : Error → Error
wrap_commit conflict = apply_conflict
wrap_commit e = wrap "failed to commit" e

abbrev pub commit_error : Result (Unit {0}) → Result (Unit {0})
commit_error (ok u) = ok u
commit_error (err e) = err (wrap_commit e)

module _ ⦃r : Radix⦄ where
  pub record State : Type 0 where
    pub db : Db
    pub writes : Map (Unit {0})

  -- `State.Apply` on a write: the state, the write with its commit time, and the error
  unfoldable pub apply : State → Write → Bool → State × Write × Result (Unit {0})
  apply s w dry =
      let (db, txd, res) = commit s.db w.txd dry in
      let writes = if dry then s.writes else put w.nonce tt s.writes in
      if has w.nonce s.writes then (s, w, err already_applied) else (
        record { db = db; writes = elim res [ ok _ ↦ writes | err _ ↦ s.writes ] },
        record w { txd = txd },
        commit_error res,
      )

  -- `State.Apply`: a nil write is accepted and does nothing
  unfoldable pub apply_ptr : State → Option Write → Bool → State × Option Write × Result (Unit {0})
  unfolding apply
  apply_ptr s none dry = (s, none, ok tt)
  apply_ptr s (some w) dry = let (s', w', res) = apply s w dry in (s', some w', res)

  -- `NewState(nil)`
  abbrev pub empty_state : State
  empty_state = record { db = new_db; writes = [] }

  -- the inner loop of `NewState`
  unfoldable pub replay_block : State → List Write → Result State
  replay_block s [] = ok s
  replay_block s (w ∷ ws) = elim (apply s w false).2 [
    | ok _ ↦ replay_block (apply s w false).0 ws
    | err e ↦ err e
  ]

  -- the outer loop of `NewState`
  unfoldable pub replay_log : State → List (List Write) → Result State
  replay_log s [] = ok s
  replay_log s (ws ∷ log) = elim (replay_block s ws) [ ok s' ↦ replay_log s' log | err e ↦ err e ]

  -- `NewState`
  unfoldable pub new_state : List (List Write) → Result State
  unfolding replay_block replay_log
  new_state log = replay_log empty_state log

module _ ⦃c : Crypto⦄ ⦃r : Radix⦄ where
  -- `State.View`: what the client reads; its writes are dropped
  unfoldable pub view : {A : Type 0} → State → Client A → A
  view s f = (run f (new_tx s.db)).0

  -- `State.Update`: the write that carries the client's changes, nil if it has none
  unfoldable pub update : State → Client (Unit {0}) → Option Write
  update s f =
      let txd = (run f (new_tx s.db)).1.txd in
      if ltb (length txd.write_rows) 1
      then none
      else some (record { txd = txd; pk = zeros 32; nonce = zeros 32; signature = zeros 64 })
