-- ===== src/Ssi/Bank/Ledger.antt =====
-- What the sample bank promises (exp/onl/ssi/bank.go): balances by name, without a database, and
-- the operations on them.
use dd.Base.{
  ◌≡◌, ℕ, ◌<◌, Option, none, some, List, [], ◌∷◌, Result, ok, err, account_exists,
  account_not_exist, not_enough_funds, if◌then◌else◌,
}
use dd.Base.Bytes.{Bytes, bytes_eq, u64_mod}
use dd.Externals.{Crypto, Radix}
use dd.Ssi.{Db, key_hash}
use dd.Ssi.Bank.{Gob, bint64, add_i64, sub_i64, less_i64, open_account, transfer_funds}

abbrev pub Accounts : Type 0
Accounts = Bytes → Option ℕ

abbrev pub set_balance : Bytes → ℕ → Accounts → Accounts
set_balance name n v j = if bytes_eq name j then some n else v j

unfoldable pub opened : Bytes → ℕ → Accounts → Option ℕ → Accounts × Result (Unit {0})
opened name n v (some _) = (v, err account_exists)
opened name n v none = (set_balance name n v, ok tt)

unfoldable pub transferred :
    ℕ → Bytes → Bytes → Accounts → Option ℕ → Option ℕ → Accounts × Result (Unit {0})
transferred amount from to v (some a) (some b) =
    if bytes_eq from to
    then (v, ok tt)
    else (if less_i64 a amount
        then (v, err not_enough_funds)
        else (set_balance from (sub_i64 a amount) (set_balance to (add_i64 b amount) v), ok tt))
transferred amount from to v _ _ = (v, err account_not_exist)

-- what the owner of a balance is told
unfoldable pub told : Option ℕ → ℕ × Result (Unit {0})
told none = (0, err account_not_exist)
told (some n) = (n, ok tt)

-- a call of the bank
pub data Call : Type 0 where
  opens : (name : Bytes) (balance : ℕ) → Call
  transfers : (amount : ℕ) (from to : Bytes) → Call

-- on the balances
unfoldable pub promised : Call → Accounts → Accounts × Result (Unit {0})
promised (opens name n) v = opened name n v (v name)
promised (transfers amount from to) v = transferred amount from to v (v from) (v to)

unfoldable pub promised_all : List Call → Accounts → Accounts × List (Result (Unit {0}))
promised_all [] v = (v, [])
promised_all (call ∷ calls) v =
    let (v', res) = promised call v in let (v'', rest) = promised_all calls v' in (v'', res ∷ rest)

module _ ⦃c : Crypto⦄ ⦃r : Radix⦄ ⦃g : Gob⦄ where
  -- on the bank
  unfoldable pub execute : Call → Db → Db × Result (Unit {0})
  execute (opens name n) db = open_account name n db
  execute (transfers amount from to) db = transfer_funds amount from to db

  unfoldable pub execute_all : List Call → Db → Db × List (Result (Unit {0}))
  execute_all [] db = (db, [])
  execute_all (call ∷ calls) db =
      let (db', res) = execute call db in
      let (db'', rest) = execute_all calls db' in (db'', res ∷ rest)

  -- the balances that the rows hold
  unfoldable pub accounts_of : Db → Accounts
  accounts_of db name = elim (r.lookup name db.store) [ none ↦ none | some raw ↦ some (bint64 raw) ]

-- The amount is a word, and the rows of two accounts do not share a hash.
abbrev pub IsFit : ⦃c : Crypto⦄ → Call → Type 0
IsFit (opens name n) = n < u64_mod
IsFit (transfers amount from to) = (amount < u64_mod) × (key_hash from ≡ key_hash to → from ≡ to)
