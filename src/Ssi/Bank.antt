-- ===== src/Ssi/Bank.antt =====
-- The sample bank over the database of exp/onl/ssi (bank.go): accounts are rows that hold an
-- `int64`, which stands as the 64-bit word of its two's complement; `int64` reads its sign. The
-- bank is its database.
pub mod Ledger
pub mod Commit
pub mod Refined
pub mod Promise
pub mod Total
use dd.Base.{
  ◌≡◌, ℕ, Bool, false, ◌+◌, ◌-◌, ◌%◌, ◌<◌, Option, none, some, Result, ok, err, ◌>>=◌, wrapped,
  account_exists, account_not_exist, not_enough_funds, if◌then◌else◌,
}
use dd.Base.Bytes.{Bytes, bytes_eq, u64_mod}
use dd.Base.Int.{int64, ltb_ℤ}
use dd.Externals.{Crypto, Radix}
use dd.Ssi.{TxData, Tx, Db, new_tx, tx_get, tx_set, commit}

-- encoding/gob: a message is what an encoder has put into the buffer
pub record Gob : Type 1 where
  pub Message : Type 0
  pub encode_int : ℕ → Bytes
  -- none for a reported error
  pub decode_int : Bytes → Option ℕ
  pub encode_data : TxData → Result Message
  pub decode_data : Message → Result TxData
  pub decode_int-encode_int : (n : ℕ) → n < u64_mod → decode_int (encode_int n) ≡ some n
  pub decode_data-encode_data : (txd : TxData) → (encode_data txd >>= decode_data) ≡ ok txd

-- `a + b` and `a - b` of `int64`
abbrev pub add_i64 : ℕ → ℕ → ℕ
add_i64 a b = (a + b) % u64_mod

abbrev pub sub_i64 : ℕ → ℕ → ℕ
sub_i64 a b = (a + u64_mod - b) % u64_mod

-- `a < b` of `int64`
abbrev pub less_i64 : ℕ → ℕ → Bool
less_i64 a b = ltb_ℤ (int64 a) (int64 b)

module _ ⦃g : Gob⦄ where
  abbrev pub int64b : ℕ → Bytes
  int64b n = g.encode_int n

  -- an error of the decoder is dropped: n keeps its value, 0
  unfoldable pub bint64 : Bytes → ℕ
  bint64 b = elim (g.decode_int b) [ none ↦ 0 | some n ↦ n ]

  -- the data of a transaction through the buffer
  unfoldable pub transport : TxData → Result TxData
  transport txd =
      wrapped "failed to encode" (g.encode_data txd)
      >>= (λ buf. wrapped "failed to decode" (g.decode_data buf))

module _ ⦃c : Crypto⦄ ⦃r : Radix⦄ ⦃g : Gob⦄ where
  -- the commit at the end of an operation
  abbrev pub commit_on : Db → TxData → Db × Result (Unit {0})
  commit_on db txd = let (db', txd', res) = commit db txd false in (db', res)

  -- `Bank.OpenAccount`
  unfoldable pub open_account : Bytes → ℕ → Db → Db × Result (Unit {0})
  open_account name balance db =
      let (row, tx) = tx_get name (new_tx db) in
      elim row [
        | some _ ↦ (db, err account_exists)
        | none ↦ commit_on db (tx_set name (int64b balance) tx).txd
      ]

  -- `b.db.Commit` of what came out of the buffer
  unfoldable pub send_data : Db → Result TxData → Db × Result (Unit {0})
  send_data db (err e) = (db, err e)
  send_data db (ok txd) = commit_on db txd

  -- from the test of the two rows on
  unfoldable pub move_funds :
      ℕ → Bytes → Bytes → Db → Tx → Option Bytes → Option Bytes → Db × Result (Unit {0})
  move_funds amount from to db tx (some fromr) (some tor) =
      let fromb = bint64 fromr in
      let tx' =
        tx_set from (int64b (sub_i64 fromb amount))
          (tx_set to (int64b (add_i64 (bint64 tor) amount)) tx) in
      if bytes_eq from to
      then (db, ok tt)
      else (if less_i64 fromb amount
          then (db, err not_enough_funds)
          else send_data db (transport tx'.txd))
  move_funds amount from to db tx _ _ = (db, err account_not_exist)

  -- `Bank.TransferFunds`
  unfoldable pub transfer_funds : ℕ → Bytes → Bytes → Db → Db × Result (Unit {0})
  transfer_funds amount from to db =
      let (fromr, tx1) = tx_get from (new_tx db) in
      let (tor, tx2) = tx_get to tx1 in move_funds amount from to db tx2 fromr tor

  -- `Bank.CurrentBalance`: the balance comes back beside the error of the commit
  unfoldable pub current_balance : Bytes → Db → Db × ℕ × Result (Unit {0})
  current_balance name db =
      let (row, tx) = tx_get name (new_tx db) in
      elim row [
        | none ↦ (db, 0, err account_not_exist)
        | some raw ↦ let (db', res) = commit_on db tx.txd in (db', bint64 raw, res)
      ]
