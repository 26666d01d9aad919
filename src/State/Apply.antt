-- ===== src/State/Apply.antt =====
-- How writes are applied and replayed (`State.Apply` and `NewState` of exp/onl/state.go).
use dd.Base.{
  List, [], ◌∷◌, ◌≡◌, ◌+◌, ◌≤◌, ◌<◌, Bool, true, false, length, ok, err, already_applied,
  apply_conflict, conflict, arith,
}
use dd.Base.Bytes.{Bytes, u64_mod, bytes_eq_iff}
use dd.Base.Map.{has, put, has-put}
use dd.Externals.{Radix}
use dd.Ssi.{any_newer, oracle_commit, key_set, Db, TxData, commit, handle_commit}
use dd.Ssi.Rows.{any_newer-found, has-key_set, commit_time-mark, length-has}
use dd.Ssi.Clock.{stamped, oracle_commit_lem}
use dd.Write.{Write}
use dd.State.{State, apply}

module _ ⦃r : Radix⦄ where
  pub apply-writes :
      (s : State) (w : Write)
      → (apply s w false).2 ≡ ok tt
      → (apply s w false).0.writes ≡ put w.nonce tt s.writes
  unfolding apply
  apply-writes s w h = ground arith

  pub apply-seen :
      (s : State) (v : Write) (dry : Bool)
      → has v.nonce s.writes ≡ true
      → apply s v dry ≡ (s, v, err already_applied)
  unfolding apply
  apply-seen s v dry h = rw h

  -- further calls of `Apply`, dry or not, whether or not they are accepted
  unfoldable pub apply_all : State → List (Write × Bool) → State
  apply_all s [] = s
  apply_all s ((w, dry) ∷ calls) = apply_all (apply s w dry).0 calls

  apply-keeps_seen :
      (s : State) (w : Write) (dry : Bool) (n : Bytes)
      → has n s.writes ≡ true
      → has n (apply s w dry).0.writes ≡ true
  unfolding apply
  apply-keeps_seen s w dry n h = ground (arith, h, has-put w.nonce n tt s.writes)

  apply_all-keeps_seen :
      (calls : List (Write × Bool)) (s : State) (n : Bytes)
      → has n s.writes ≡ true
      → has n (apply_all s calls).writes ≡ true
  unfolding apply_all
  apply_all-keeps_seen [] s n h = h
  apply_all-keeps_seen ((w, dry) ∷ calls) s n h =
      apply_all-keeps_seen calls (apply s w dry).0 n (apply-keeps_seen s w dry n h)

  -- Once a write has been applied, no write with its nonce is ever accepted again, dry or not: after
  -- any further calls, dry or not, accepted or not, it is refused and the state stays as it is.
  pub apply-once :
      (s : State) (w : Write) (calls : List (Write × Bool)) (v : Write) (dry : Bool)
      → (apply s w false).2 ≡ ok tt
      → v.nonce ≡ w.nonce
      → let now = apply_all (apply s w false).0 calls in
        apply now v dry ≡ (now, v, err already_applied)
  apply-once s w calls v dry accepted same =
      let marked : has v.nonce (apply s w false).0.writes ≡ true = ground (
        arith,
        apply-writes s w accepted,
        has-put w.nonce v.nonce tt s.writes,
        bytes_eq_iff w.nonce v.nonce,
        same,
      ) in
      apply-seen (apply_all (apply s w false).0 calls) v dry
        (apply_all-keeps_seen calls (apply s w false).0 v.nonce marked)

  -- A dry run adds no row and marks no nonce.
  pub apply-dry_rows :
      (s : State) (w : Write)
      → ((apply s w true).0.db.store ≡ s.db.store) × ((apply s w true).0.writes ≡ s.writes)
  unfolding apply commit handle_commit
  apply-dry_rows s w = ground arith

  commit-conflict :
      (db : Db) (txd : TxData) (dry : Bool)
      → any_newer db.oracle txd.read_rows txd.time_start ≡ true
      → 1 ≤ length txd.write_rows
      → (commit db txd dry).2 ≡ err conflict
  unfolding commit handle_commit oracle_commit
  commit-conflict db txd dry h p = ground arith

  apply-conflict :
      (s : State) (w : Write) (dry : Bool)
      → has w.nonce s.writes ≡ false
      → any_newer s.db.oracle w.txd.read_rows w.txd.time_start ≡ true
      → 1 ≤ length w.txd.write_rows
      → (apply s w dry).2 ≡ err apply_conflict
  unfolding apply
  apply-conflict s w dry fresh h p = ground (arith, commit-conflict s.db w.txd dry h p)

  -- what a dry run that passes leaves behind
  apply-dry_lem :
      (s : State) (w : Write)
      → s.db.oracle.time + 1 < u64_mod
      → 1 ≤ length w.txd.write_rows
      → (apply s w true).2 ≡ ok tt
      → (has w.nonce s.writes ≡ false)
        × ((apply s w true).0.db.oracle ≡ stamped s.db.oracle (key_set w.txd.write_rows))
        × ((apply s w true).1.txd.read_rows ≡ w.txd.read_rows)
        × ((apply s w true).1.txd.write_rows ≡ w.txd.write_rows)
        × ((apply s w true).1.txd.time_start ≡ w.txd.time_start)
        × ((apply s w true).1.nonce ≡ w.nonce)
  unfolding apply commit handle_commit
  apply-dry_lem s w room p passed = ground (
    arith,
    oracle_commit_lem s.db.oracle w.txd.read_rows (key_set w.txd.write_rows) w.txd.time_start room,
  )

  -- A dry run is not without effect: it stamps the rows of the write. If a write that reads a row
  -- which it also writes passes a dry run, applying the same write to the same state afterwards
  -- fails with a conflict; where the write did not start after the state's clock, and the clock has
  -- room for one more.
  pub apply-after_dry :
      (s : State) (w : Write) (k : Bytes)
      → s.db.oracle.time + 1 < u64_mod
      → w.txd.time_start ≤ s.db.oracle.time
      → has k w.txd.read_rows ≡ true
      → has k w.txd.write_rows ≡ true
      → (apply s w true).2 ≡ ok tt
      → (apply (apply s w true).0 (apply s w true).1 false).2 ≡ err apply_conflict
  apply-after_dry s w k room started reads writes passed =
      let p = length-has k w.txd.write_rows writes in
      let after = apply-dry_lem s w room p passed in
      apply-conflict (apply s w true).0 (apply s w true).1 false
        (rw (after.5, (apply-dry_rows s w).1) after.0)
        (rw (after.1, after.2, after.4)
          (any_newer-found _ _ _ k reads (
            ground (
              arith,
              commit_time-mark (s.db.oracle.time + 1) k (key_set w.txd.write_rows) s.db.oracle,
              has-key_set k w.txd.write_rows,
            ))))
        (rw after.3 p)

  pub apply-fresh :
      (s : State) (w : Write) (dry : Bool)
      → (apply s w dry).2 ≡ ok tt
      → has w.nonce s.writes ≡ false
  unfolding apply
  apply-fresh s w dry h = ground arith
