-- ===== src/Ssi/Bank/Promise.antt =====
-- Runs of the bank (exp/onl/ssi/bank.go) against its promise.
use dd.Base.{◌≡◌, refl, ap, ◌+◌, ◌<◌, List, [], ◌∷◌, All, length, arith, inl, inr}
use dd.Base.Bytes.{Bytes, u64_mod}
use dd.Externals.{Crypto, Radix}
use dd.Ssi.{Db, new_tx, tx_get, commit}
use dd.Ssi.Clock.{IsClocked}
use dd.Ssi.Bank.{Gob, current_balance}
use dd.Ssi.Bank.Ledger.{
  told, Call, opens, transfers, promised, promised_all, execute, execute_all, accounts_of, IsFit,
}
use dd.Ssi.Bank.Commit.{Done, accounts_of-row}
use dd.Ssi.Bank.Refined.{open_account-Done, transfer_funds-Done}
use mathlib.Core.Path.{fun_ext}

module _ ⦃c : Crypto⦄ ⦃r : Radix⦄ ⦃g : Gob⦄ where
  execute-Done :
      (call : Call) (db : Db)
      → IsFit call
      → IsClocked db.oracle
      → db.oracle.time + 1 < u64_mod
      → Done db (execute call db) (promised call (accounts_of db))
  unfolding execute promised
  execute-Done (opens name n) db fit clocked room = open_account-Done name n db fit clocked room
  execute-Done (transfers amount from to) db fit clocked room =
      transfer_funds-Done amount from to db fit.1 clocked room

  pub current_balance_lem :
      (name : Bytes) (db : Db)
      → let (n, res) = told (accounts_of db name) in current_balance name db ≡ (db, n, res)
  unfolding current_balance told tx_get new_tx commit
  current_balance_lem name db = elim (accounts_of-row name db) [
    | inl (a, e) ↦ rw (a, e) refl
    | inr (raw, a, e) ↦ rw (a, e) refl
  ]

  -- The bank does what is promised: any calls, made one after the other, give the results that
  -- they have on the balances alone, and from then on every name is told its balance or that there
  -- is no such account. The clock of the database has room for the calls, no row is newer than it,
  -- the amounts are words, and the two accounts of a transfer do not share a hash.
  pub execute_all-promised :
      (calls : List Call) (db : Db)
      → IsClocked db.oracle
      → db.oracle.time + length calls < u64_mod
      → All IsFit calls
      → let (db', results) = execute_all calls db in
        let (v, expected) = promised_all calls (accounts_of db) in
        (results ≡ expected)
        × ((name : Bytes)
            → let (n, res) = told (v name) in current_balance name db' ≡ (db', n, res))
  unfolding execute_all promised_all
  execute_all-promised [] db clocked room fits = (refl, λ name. current_balance_lem name db)
  execute_all-promised (call ∷ calls) db clocked room fits =
      let d = execute-Done call db fits.0 clocked (omega arith) in
      let rest =
        execute_all-promised calls (execute call db).0 d.clocked (omega (arith, d.time)) fits.1 in
      let same : accounts_of (execute call db).0 ≡ (promised call (accounts_of db)).0 =
        fun_ext d.balances in
      rw (← same, d.result)
        (ap (λ results. (promised call (accounts_of db)).1 ∷ results) rest.0, rest.1)
