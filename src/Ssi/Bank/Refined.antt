-- ===== src/Ssi/Bank/Refined.antt =====
-- The operations of the bank (exp/onl/ssi/bank.go) do what is promised.
use dd.Base.{
  ◌≡◌, refl, ℕ, ◌+◌, ◌<◌, false, none, some, [], ◌∷◌, ok, arith, err, Bool-cases, account_not_exist,
  inl, inr, ◌⊎◌, account_exists, not_enough_funds, true,
}
use dd.Base.Bytes.{Bytes, bytes_eq, bytes_eq_iff, bytes_eq_sound, u64_mod}
use dd.Base.Map.{put}
use dd.Externals.{Crypto, Radix}
use dd.Ssi.{Db, KeyChangeSet, key_hash, new_tx, tx_get, tx_set, insert_all}
use dd.Ssi.Clock.{IsClocked}
use dd.Ssi.Bank.{
  Gob, bint64, send_data, open_account, move_funds, transfer_funds, sub_i64, add_i64, less_i64,
}
use dd.Ssi.Bank.Ledger.{set_balance, opened, transferred, accounts_of}
use dd.Ssi.Bank.Commit.{
  committed, transport_lem, commit_on-fresh, Done, Done-same, Done-committed, written,
  accounts_of-insert, accounts_of-oracle, accounts_of-row,
}

module _ ⦃c : Crypto⦄ ⦃r : Radix⦄ ⦃g : Gob⦄ where
  open_account-none :
      (name : Bytes) (n : ℕ) (db : Db)
      → IsClocked db.oracle
      → db.oracle.time + 1 < u64_mod
      → r.lookup name db.store ≡ none
      → open_account name n db ≡ (committed db (written name n), ok tt)
  unfolding open_account tx_get new_tx tx_set put
  open_account-none name n db clocked room e =
      rw e (commit_on-fresh db _ clocked room refl (omega arith))

  open_account-some :
      (name raw : Bytes) (n : ℕ) (db : Db)
      → r.lookup name db.store ≡ some raw
      → open_account name n db ≡ (db, err account_exists)
  unfolding open_account tx_get new_tx tx_set
  open_account-some name raw n db e = rw e refl

  pub open_account-Done :
      (name : Bytes) (n : ℕ) (db : Db)
      → n < u64_mod
      → IsClocked db.oracle
      → db.oracle.time + 1 < u64_mod
      → Done db (open_account name n db) (opened name n (accounts_of db) (accounts_of db name))
  unfolding opened insert_all accounts_of
  open_account-Done name n db fits clocked room = elim (accounts_of-row name db) [
    | inl (a, e) ↦
        rw (open_account-none name n db clocked room e, a)
          (Done-committed db (written name n) _ clocked room
            (λ j. accounts_of-insert name n db.oracle db.store j fits))
    | inr (raw, a, e) ↦
        rw (open_account-some name raw n db e, a) (Done-same db _ _ _ clocked refl (λ j. refl))
  ]

  -- the writes of a transfer
  abbrev moved : Bytes → ℕ → Bytes → ℕ → KeyChangeSet
  moved from a to b =
      (key_hash to, record { k = to; v = g.encode_int b })
      ∷ (key_hash from, record { k = from; v = g.encode_int a })
      ∷ []

  accounts_of-moved :
      (from : Bytes) (a : ℕ) (to : Bytes) (b : ℕ) (db : Db) (j : Bytes)
      → a < u64_mod
      → b < u64_mod
      → accounts_of (committed db (moved from a to b)) j
        ≡ set_balance from a (set_balance to b (accounts_of db)) j
  unfolding insert_all
  accounts_of-moved from a to b db j fits_a fits_b = ground (
    arith,
    accounts_of-insert from a (committed db (moved from a to b)).oracle
        (r.insert to (g.encode_int b) db.store) j fits_a,
    accounts_of-insert to b (committed db (moved from a to b)).oracle db.store j fits_b,
    accounts_of-oracle (committed db (moved from a to b)).oracle db j,
  )

  module _ (amount : ℕ) (from to fromr tor : Bytes) (db : Db) (clocked : IsClocked db.oracle)
      (room : db.oracle.time + 1 < u64_mod) (from_row : r.lookup from db.store ≡ some fromr)
      (to_row : r.lookup to db.store ≡ some tor) where
    transfer_funds_self : from ≡ to → transfer_funds amount from to db ≡ (db, ok tt)
    unfolding transfer_funds tx_get new_tx move_funds
    transfer_funds_self same = rw (from_row, to_row) (ground (arith, bytes_eq_iff from to))

    transfer_funds_poor :
        bytes_eq from to ≡ false
        → less_i64 (bint64 fromr) amount ≡ true
        → transfer_funds amount from to db ≡ (db, err not_enough_funds)
    unfolding transfer_funds tx_get new_tx move_funds
    transfer_funds_poor other poor = rw (from_row, to_row, other, poor) refl

    transfer_funds_moves :
        bytes_eq from to ≡ false
        → less_i64 (bint64 fromr) amount ≡ false
        → bytes_eq (key_hash to) (key_hash from) ≡ false
        → let a = sub_i64 (bint64 fromr) amount in
          let b = add_i64 (bint64 tor) amount in
          transfer_funds amount from to db ≡ (committed db (moved from a to b), ok tt)
    unfolding transfer_funds tx_get new_tx move_funds tx_set put send_data
    transfer_funds_moves other rich apart =
        rw (from_row, to_row, other, rich, transport_lem, apart)
          (commit_on-fresh db _ clocked room refl (omega arith))

    hashes_apart :
        (key_hash from ≡ key_hash to → from ≡ to)
        → bytes_eq from to ≡ false
        → bytes_eq (key_hash to) (key_hash from) ≡ false
    hashes_apart apart other =
        ground (arith, apart, bytes_eq_iff from to, bytes_eq_iff (key_hash to) (key_hash from))

    transfer_funds_present :
        (key_hash from ≡ key_hash to → from ≡ to)
        → Done db
            (transfer_funds amount from to db)
            (transferred amount from to (accounts_of db) (some (bint64 fromr)) (some (bint64 tor)))
    unfolding transferred
    transfer_funds_present apart = elim (Bool-cases (bytes_eq from to)) [
      | inl same ↦
          rw (transfer_funds_self (bytes_eq_sound from to same), same)
            (Done-same db _ _ _ clocked refl (λ j. refl))
      | inr other ↦ elim (Bool-cases (less_i64 (bint64 fromr) amount)) [
        | inl poor ↦
            rw (transfer_funds_poor other poor, other, poor)
              (Done-same db _ _ _ clocked refl (λ j. refl))
        | inr rich ↦
            rw (transfer_funds_moves other rich (hashes_apart apart other), other, rich)
              (Done-committed db _ _ clocked room
                (λ j. accounts_of-moved from _ to _ db j (omega arith) (omega arith)))
      ]
    ]

  transfer_funds_missing :
      (amount : ℕ) (from to : Bytes) (db : Db)
      → (r.lookup from db.store ≡ none) ⊎ (r.lookup to db.store ≡ none)
      → transfer_funds amount from to db ≡ (db, err account_not_exist)
  unfolding transfer_funds tx_get new_tx move_funds
  transfer_funds_missing amount from to db h = ground arith

  pub transfer_funds-Done :
      (amount : ℕ) (from to : Bytes) (db : Db)
      → (key_hash from ≡ key_hash to → from ≡ to)
      → IsClocked db.oracle
      → db.oracle.time + 1 < u64_mod
      → let v = accounts_of db in
        Done db (transfer_funds amount from to db) (transferred amount from to v (v from) (v to))
  unfolding transferred
  transfer_funds-Done amount from to db apart clocked room = elim (accounts_of-row from db) [
    | inl (a, e) ↦
        rw (transfer_funds_missing amount from to db (inl e), a)
          (Done-same db _ _ _ clocked refl (λ j. refl))
    | inr (fromr, a, e) ↦ elim (accounts_of-row to db) [
      | inl (b, f) ↦
          rw (transfer_funds_missing amount from to db (inr f), a, b)
            (Done-same db _ _ _ clocked refl (λ j. refl))
      | inr (tor, b, f) ↦
          rw (a, b) (transfer_funds_present amount from to fromr tor db clocked room e f apart)
    ]
  ]
