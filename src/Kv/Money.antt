-- ===== src/Kv/Money.antt =====
-- What the methods of exp/onl/kv.go do to balances and stakes.
use dd.Base.{
  ◌≡◌, ℕ, ◌+◌, ◌-◌, ◌%◌, ◌<◌, Bool, true, false, Option, none, some, length, ltb, arith, ◌&&◌,
  if◌then◌else◌,
}
use dd.Base.Bytes.{
  Bytes, u64_mod, bytes_eq, bytes_eq_iff, bytes_eq_refl, be64, num, num-be64, num-put_u64,
  length-be64, length-put_u64,
}
use dd.Externals.{Crypto, Radix}
use dd.Ssi.{Tx, tx_get, tx_set}
use dd.Ssi.Client.{run}
use dd.Kv.{Pk, balance_key, stake_key, tpk_key, bytes, deposit_stake, read_stake, transfer_currency}
use dd.Kv.Rows.{
  IsPk, balance_key-eq, amount_of, credited, debited, covers, row, balance, balance-row,
  row-transfer_currency, balance_key-ne-stake_key, stake_key-ne-balance_key, stake_key-ne-tpk_key,
  tpk_key-ne-balance_key, tpk_key-ne-stake_key,
}

pub amount_of-credited :
    (n : ℕ) (v : Option Bytes)
    → amount_of v + n < u64_mod
    → amount_of (some (credited n v)) ≡ amount_of v + n
amount_of-credited n v h = ground (
  arith,
  num-be64 n,
  length-be64 n,
  num-put_u64 ((n + num (bytes v)) % u64_mod) (bytes v),
  length-put_u64 ((n + num (bytes v)) % u64_mod) (bytes v),
)

pub amount_of-debited :
    (n : ℕ) (v : Option Bytes)
    → covers v n ≡ true
    → amount_of v < u64_mod
    → amount_of (some (debited n v)) ≡ amount_of v - n
amount_of-debited n v p h =
    ground (
      arith,
      num-put_u64 (num (bytes v) - n) (bytes v),
      length-put_u64 (num (bytes v) - n) (bytes v),
    )

module _ ⦃c : Crypto⦄ ⦃r : Radix⦄ where
  -- What a transfer of `n` from `a` to another account `b` leaves in every account `pk`, where the
  -- balance of `a` and that of `b` with `n` more fit 64 bits, and public keys have 32 bytes: if `a`
  -- has a balance row that covers `n`, then `a` has `n` less, `b` has `n` more and nobody else is
  -- touched; and otherwise nothing changes.
  pub transfer_currency-balance :
      (a b pk : Pk) (n : ℕ) (tx : Tx)
      → IsPk a
      → IsPk b
      → IsPk pk
      → bytes_eq a b ≡ false
      → balance a tx < u64_mod
      → balance b tx + n < u64_mod
      → balance pk (run (transfer_currency a b n) tx).1 ≡ (
          if covers (row (balance_key a) tx) n
          then (if bytes_eq a pk
              then balance a tx - n
              else if bytes_eq b pk
              then balance b tx + n
              else balance pk tx)
          else balance pk tx)
  transfer_currency-balance a b pk n tx ha hb hp ne fa fb = ground (
    arith,
    balance-row a tx,
    balance-row b tx,
    balance-row pk tx,
    balance-row pk (run (transfer_currency a b n) tx).1,
    row-transfer_currency a b n (balance_key pk) tx,
    balance_key-eq a pk ha hp,
    balance_key-eq b pk hb hp,
    amount_of-credited n (row (balance_key b) tx),
    amount_of-debited n (row (balance_key a) tx),
  )

  -- A transfer, whatever its amount and also from an account to itself, leaves the sum of the two
  -- balances as it is, where that sum fits 64 bits and public keys have 32 bytes.
  pub transfer_currency-total :
      (a b : Pk) (n : ℕ) (tx : Tx)
      → IsPk a
      → IsPk b
      → balance a tx + balance b tx < u64_mod
      → balance a (run (transfer_currency a b n) tx).1
          + balance b (run (transfer_currency a b n) tx).1
        ≡ balance a tx + balance b tx
  transfer_currency-total a b n tx ha hb fit = ground (
    arith,
    balance-row a tx,
    balance-row b tx,
    balance-row a (run (transfer_currency a b n) tx).1,
    balance-row b (run (transfer_currency a b n) tx).1,
    row-transfer_currency a b n (balance_key a) tx,
    row-transfer_currency a b n (balance_key b) tx,
    bytes_eq_refl (balance_key a),
    bytes_eq_refl (balance_key b),
    balance_key-eq a b ha hb,
    bytes_eq_iff (balance_key b) (balance_key a),
    bytes_eq_iff (balance_key a) (balance_key b),
    amount_of-credited n (row (balance_key b) tx),
    amount_of-debited n (row (balance_key a) tx),
  )

  -- the deposit and the token key that `ReadStake` returns
  unfoldable pub stake : Pk → Tx → ℕ × Option Bytes
  stake pk tx = (run (read_stake pk) tx).0

  pub stake-row :
      (pk : Pk) (tx : Tx)
      → stake pk tx ≡ (
          if ltb (length (bytes (row (stake_key pk) tx))) 8
          then (0, none)
          else (num (bytes (row (stake_key pk) tx)), row (tpk_key pk) tx))
  unfolding stake read_stake run tx_get
  stake-row pk tx = ground arith

  -- whether a deposit goes through: the balance covers it, and there is no stake yet
  abbrev pub can_deposit : Pk → ℕ → Tx → Bool
  can_deposit pk n tx =
      covers (row (balance_key pk) tx) n && ltb (length (bytes (row (stake_key pk) tx))) 8

  pub row-deposit_stake :
      (pk : Pk) (n : ℕ) (tpk : Bytes) (j : Bytes) (tx : Tx)
      → row j (run (deposit_stake pk n tpk) tx).1 ≡ (
          if can_deposit pk n tx
          then (if bytes_eq (tpk_key pk) j
              then some tpk
              else if bytes_eq (stake_key pk) j
              then some (be64 n)
              else if bytes_eq (balance_key pk) j
              then some (debited n (row (balance_key pk) tx))
              else row j tx)
          else row j tx)
  unfolding deposit_stake run tx_get tx_set
  row-deposit_stake pk n tpk j tx =
      let v = debited n (row (balance_key pk) tx) in
      let t1 = r.insert (balance_key pk) v tx.snapshot in
      let t2 = r.insert (stake_key pk) (be64 n) t1 in
      ground (
        arith,
        r.lookup-insert (balance_key pk) j v tx.snapshot,
        r.lookup-insert (stake_key pk) j (be64 n) t1,
        r.lookup-insert (tpk_key pk) j tpk t2,
      )

  -- A deposit of `n` with the token key `tpk`, where the balance fits 64 bits and the public key has
  -- 32 bytes. If the balance row covers it and there is no stake yet, it moves `n` from the balance
  -- to the stake and commits to `tpk`; otherwise the balance, the stake and its token key stay as
  -- they are.
  pub deposit_stake-moves :
      (pk : Pk) (n : ℕ) (tpk : Bytes) (tx : Tx)
      → IsPk pk
      → balance pk tx < u64_mod
      → let tx' = (run (deposit_stake pk n tpk) tx).1 in
        if can_deposit pk n tx
        then (balance pk tx' + n ≡ balance pk tx) × (stake pk tx' ≡ (n, some tpk))
        else (balance pk tx' ≡ balance pk tx) × (stake pk tx' ≡ stake pk tx)
  deposit_stake-moves pk n tpk tx hp fit = ground (
    arith,
    balance-row pk tx,
    balance-row pk (run (deposit_stake pk n tpk) tx).1,
    stake-row pk tx,
    stake-row pk (run (deposit_stake pk n tpk) tx).1,
    row-deposit_stake pk n tpk (balance_key pk) tx,
    row-deposit_stake pk n tpk (stake_key pk) tx,
    row-deposit_stake pk n tpk (tpk_key pk) tx,
    bytes_eq_refl (balance_key pk),
    bytes_eq_refl (stake_key pk),
    bytes_eq_refl (tpk_key pk),
    balance_key-ne-stake_key pk pk hp hp,
    stake_key-ne-balance_key pk pk hp hp,
    stake_key-ne-tpk_key pk pk hp hp,
    tpk_key-ne-balance_key pk pk hp hp,
    tpk_key-ne-stake_key pk pk hp hp,
    amount_of-debited n (row (balance_key pk) tx),
    num-be64 n,
    length-be64 n,
  )
