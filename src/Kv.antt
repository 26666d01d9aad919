-- ===== src/Kv.antt =====
-- The key-value view of exp/onl/kv.go: balances, stakes and token keys as rows of the database.
-- A method is a client of the transaction that the view wraps. A key is the 32 bytes of the owner's
-- public key and a suffix.
pub mod Rows
pub mod Money
use dd.Base.{ℕ, List, ◌+◌, ◌-◌, ◌%◌, Option, none, some, ◌++◌, length, ltb, leb, if◌then◌else◌}
use dd.Base.Bytes.{Bytes, u64_mod, bytes_eq, be64, put_u64, num, codes}
use dd.Ssi.Client.{Client, done, ◌>>=◌, ◌>>◌, get_row, set_row}

abbrev pub Pk : Type 0
Pk = Bytes

abbrev pub balance_key : Pk → Bytes
balance_key owner = owner ++ codes "_balance"

-- `skey`
abbrev pub stake_key : Pk → Bytes
stake_key owner = owner ++ codes "_stake"

-- `tpkey`
abbrev pub tpk_key : Pk → Bytes
tpk_key owner = owner ++ codes "_tpk"

-- a nil slice has length 0
abbrev pub bytes : Option Bytes → Bytes
bytes none = List.[]
bytes (some v) = v

-- `DepositStake`
unfoldable pub deposit_stake : Pk → ℕ → Bytes → Client (Unit {0})
deposit_stake owner amount tpk = do
  balv ← get_row (balance_key owner)
  if ltb (length (bytes balv)) 8
      then done tt
      else if ltb (num (bytes balv)) amount
      then done tt
      else do
        stakev ← get_row (stake_key owner)
        if leb 8 (length (bytes stakev)) then done tt else do
          set_row (balance_key owner) (put_u64 (num (bytes balv) - amount) (bytes balv))
          set_row (stake_key owner) (be64 amount)
          set_row (tpk_key owner) tpk

-- `ReadStake`
unfoldable pub read_stake : Pk → Client (ℕ × Option Bytes)
read_stake owner = do
  v ← get_row (stake_key owner)
  if ltb (length (bytes v)) 8
      then done (0, none)
      else do tpk ← get_row (tpk_key owner); done (num (bytes v), tpk)

-- `CoinbaseTransfer`
unfoldable pub coinbase_transfer : Pk → ℕ → Client (Unit {0})
coinbase_transfer receiver amount = do
  v ← get_row (balance_key receiver)
  set_row (balance_key receiver) (
      if leb 8 (length (bytes v))
      then put_u64 ((amount + num (bytes v)) % u64_mod) (bytes v)
      else be64 amount)

-- `TransferCurrency`
unfoldable pub transfer_currency : Pk → Pk → ℕ → Client (Unit {0})
unfolding coinbase_transfer
transfer_currency from to amount = if bytes_eq from to then done tt else do
  balv ← get_row (balance_key from)
  if ltb (length (bytes balv)) 8
      then done tt
      else if ltb (num (bytes balv)) amount
      then done tt
      else do
        coinbase_transfer to amount
        set_row (balance_key from) (put_u64 (num (bytes balv) - amount) (bytes balv))

-- `AccountBalance`
unfoldable pub account_balance : Pk → Client ℕ
account_balance pk = do
  v ← get_row (balance_key pk)
  if ltb (length (bytes v)) 8 then done 0 else done (num (bytes v))
