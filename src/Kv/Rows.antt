-- ===== src/Kv/Rows.antt =====
-- The keys and rows of the methods of exp/onl/kv.go.
use dd.Base.{
  ◌≡◌, ℕ, ◌+◌, ◌-◌, ◌%◌, Bool, false, Option, some, length, length-append, ltb, leb, arith,
  if◌then◌else◌,
}
use dd.Base.Bytes.{
  Bytes, u64_mod, bytes_eq, bytes_eq-append, bytes_eq-length, be64, put_u64, num, codes,
}
use dd.Externals.{Crypto, Radix}
use dd.Ssi.{Tx, tx_get, tx_set}
use dd.Ssi.Client.{run}
use dd.Kv.{
  Pk, balance_key, stake_key, tpk_key, bytes, coinbase_transfer, transfer_currency, account_balance,
}

-- A public key is 32 bytes.
abbrev pub IsPk : Pk → Type 0
IsPk pk = length pk ≡ 32

pub balance_key-eq :
    (a b : Pk) → IsPk a → IsPk b → bytes_eq (balance_key a) (balance_key b) ≡ bytes_eq a b
balance_key-eq a b ha hb = bytes_eq-append a b _ (omega arith)

pub stake_key-eq :
    (a b : Pk) → IsPk a → IsPk b → bytes_eq (stake_key a) (stake_key b) ≡ bytes_eq a b
stake_key-eq a b ha hb = bytes_eq-append a b _ (omega arith)

pub tpk_key-eq : (a b : Pk) → IsPk a → IsPk b → bytes_eq (tpk_key a) (tpk_key b) ≡ bytes_eq a b
tpk_key-eq a b ha hb = bytes_eq-append a b _ (omega arith)

-- Keys of different kinds have different lengths: 40, 38 and 36 bytes.
module _ (a b : Pk) (ha : IsPk a) (hb : IsPk b) where
  pub balance_key-ne-stake_key : bytes_eq (balance_key a) (stake_key b) ≡ false
  balance_key-ne-stake_key =
      bytes_eq-length (balance_key a) (stake_key b)
        (omega (arith, length-append a (codes "_balance"), length-append b (codes "_stake")))

  pub balance_key-ne-tpk_key : bytes_eq (balance_key a) (tpk_key b) ≡ false
  balance_key-ne-tpk_key =
      bytes_eq-length (balance_key a) (tpk_key b)
        (omega (arith, length-append a (codes "_balance"), length-append b (codes "_tpk")))

  pub stake_key-ne-balance_key : bytes_eq (stake_key a) (balance_key b) ≡ false
  stake_key-ne-balance_key =
      bytes_eq-length (stake_key a) (balance_key b)
        (omega (arith, length-append a (codes "_stake"), length-append b (codes "_balance")))

  pub stake_key-ne-tpk_key : bytes_eq (stake_key a) (tpk_key b) ≡ false
  stake_key-ne-tpk_key =
      bytes_eq-length (stake_key a) (tpk_key b)
        (omega (arith, length-append a (codes "_stake"), length-append b (codes "_tpk")))

  pub tpk_key-ne-balance_key : bytes_eq (tpk_key a) (balance_key b) ≡ false
  tpk_key-ne-balance_key =
      bytes_eq-length (tpk_key a) (balance_key b)
        (omega (arith, length-append a (codes "_tpk"), length-append b (codes "_balance")))

  pub tpk_key-ne-stake_key : bytes_eq (tpk_key a) (stake_key b) ≡ false
  tpk_key-ne-stake_key =
      bytes_eq-length (tpk_key a) (stake_key b)
        (omega (arith, length-append a (codes "_tpk"), length-append b (codes "_stake")))

-- What a balance row and a stake row stand for.
abbrev pub amount_of : Option Bytes → ℕ
amount_of v = if ltb (length (bytes v)) 8 then 0 else num (bytes v)

-- the new balance row after a credit
abbrev pub credited : ℕ → Option Bytes → Bytes
credited amount v =
    if leb 8 (length (bytes v))
    then put_u64 ((amount + num (bytes v)) % u64_mod) (bytes v)
    else be64 amount

-- the new balance row after a debit
abbrev pub debited : ℕ → Option Bytes → Bytes
debited amount v = put_u64 (num (bytes v) - amount) (bytes v)

-- whether the row covers the amount
abbrev pub covers : Option Bytes → ℕ → Bool
covers v amount = if ltb (length (bytes v)) 8 then false else leb amount (num (bytes v))

module _ ⦃c : Crypto⦄ ⦃r : Radix⦄ where
  -- the value of a key that a transaction sees
  abbrev pub row : Bytes → Tx → Option Bytes
  row k tx = r.lookup k tx.snapshot

  unfoldable pub balance : Pk → Tx → ℕ
  balance pk tx = (run (account_balance pk) tx).0

  pub balance-row : (pk : Pk) (tx : Tx) → balance pk tx ≡ amount_of (row (balance_key pk) tx)
  unfolding balance account_balance run tx_get
  balance-row pk tx = ground arith

  pub row-coinbase_transfer :
      (a : Pk) (n : ℕ) (j : Bytes) (tx : Tx)
      → row j (run (coinbase_transfer a n) tx).1 ≡ (
          if bytes_eq (balance_key a) j
          then some (credited n (row (balance_key a) tx))
          else row j tx)
  unfolding coinbase_transfer run tx_get tx_set
  row-coinbase_transfer a n j tx =
      ground
        (arith, r.lookup-insert (balance_key a) j (credited n (row (balance_key a) tx)) tx.snapshot)

  pub row-transfer_currency :
      (a b : Pk) (n : ℕ) (j : Bytes) (tx : Tx)
      → row j (run (transfer_currency a b n) tx).1 ≡ (
          if bytes_eq a b
          then row j tx
          else if covers (row (balance_key a) tx) n
          then (if bytes_eq (balance_key a) j
              then some (debited n (row (balance_key a) tx))
              else if bytes_eq (balance_key b) j
              then some (credited n (row (balance_key b) tx))
              else row j tx)
          else row j tx)
  unfolding transfer_currency run tx_get tx_set
  row-transfer_currency a b n j tx = ground (
    arith,
    r.lookup-insert (balance_key b) j (credited n (row (balance_key b) tx)) tx.snapshot,
    r.lookup-insert (balance_key a) j (debited n (row (balance_key a) tx))
        (r.insert (balance_key b) (credited n (row (balance_key b) tx)) tx.snapshot),
  )
