-- ===== src/Tests/Accounts.antt =====
-- Tests of the key-value view and the state.
use dd.Base.{
  Bool, ◌≡◌, refl, ◌+◌, ◌-◌, true, false, some, List, [], ◌∷◌, ok, err, already_applied,
  apply_conflict, arith, if◌then◌else◌,
}
use dd.Base.Bytes.{Bytes, bytes_eq, be64, put_u64, u64}
use dd.Base.Map.{get, put, has}
use dd.Ssi.{
  Tx, new_db, new_tx, tx_set, tx_get, commit, handle_commit, oracle_commit, insert_all, mark,
  any_newer, key_set, commit_time,
}
use dd.Ssi.Client.{run}
use dd.Kv.{Pk, coinbase_transfer, transfer_currency, deposit_stake, account_balance, balance_key}
use dd.Kv.Rows.{balance, row, covers}
use dd.Kv.Money.{
  stake, can_deposit, transfer_currency-balance, transfer_currency-total, deposit_stake-moves,
}
use dd.Write.{Write}
use dd.State.{State, apply, empty_state, replay_block, replay_log, new_state, zeros}
use dd.State.Apply.{apply_all, apply-once, apply-dry_rows, apply-after_dry}
use dd.State.Replay.{Distinct, nonces, all_writes, mem, new_state-nonces}
use dd.Tests.Memory.{crypto, radix}

abbrev pub alice : Pk
alice = 1 ∷ zeros 31

abbrev pub bob : Pk
bob = 2 ∷ zeros 31

-- alice has 10
abbrev funded : Tx
funded = (run (coinbase_transfer alice 10) (new_tx new_db)).1

transfer_currency-balance_example : balance bob (run (transfer_currency alice bob 4) funded).1 ≡ (
    if covers (row (balance_key alice) funded) 4
    then (if bytes_eq alice bob
        then balance alice funded - 4
        else if bytes_eq bob bob
        then balance bob funded + 4
        else balance bob funded)
    else balance bob funded)
unfolding balance account_balance coinbase_transfer run new_tx tx_set tx_get get put bytes_eq be64
    u64
transfer_currency-balance_example =
    transfer_currency-balance alice bob bob 4 funded refl refl refl refl (omega arith) (omega arith)

-- the transfer has happened
transfer_currency-run : balance bob (run (transfer_currency alice bob 4) funded).1 ≡ 4
unfolding transfer_currency balance account_balance coinbase_transfer run new_tx tx_set tx_get get
    put bytes_eq be64 put_u64 u64
transfer_currency-run = refl

transfer_currency-total_example :
    balance alice (run (transfer_currency alice bob 4) funded).1
      + balance bob (run (transfer_currency alice bob 4) funded).1
    ≡ balance alice funded + balance bob funded
unfolding balance account_balance coinbase_transfer run new_tx tx_set tx_get get put bytes_eq be64
    u64
transfer_currency-total_example = transfer_currency-total alice bob 4 funded refl refl (omega arith)

deposit_stake-moves_example :
    let tx' = (run (deposit_stake alice 3 (9 ∷ [])) funded).1 in
    if can_deposit alice 3 funded
    then (balance alice tx' + 3 ≡ balance alice funded) × (stake alice tx' ≡ (3, some (9 ∷ [])))
    else (balance alice tx' ≡ balance alice funded) × (stake alice tx' ≡ stake alice funded)
unfolding balance account_balance coinbase_transfer run new_tx tx_set tx_get get put bytes_eq be64
    u64
deposit_stake-moves_example = deposit_stake-moves alice 3 (9 ∷ []) funded refl (omega arith)

-- a write that reads and writes the balance row of alice
abbrev pub mint : Write
mint = record { txd = funded.txd; pk = zeros 32; nonce = zeros 32; signature = zeros 64 }

-- a second write of another nonce
abbrev pub gift : Write
gift = record mint { nonce = 1 ∷ zeros 31; txd = record mint.txd { time_start = 2 } }

-- a dry run, a repetition and a write of another nonce come in between
abbrev later : List (Write × Bool)
later = (gift, true) ∷ (mint, false) ∷ (gift, false) ∷ []

apply-once_example :
    let now = apply_all (apply empty_state mint false).0 later in
    apply now mint true ≡ (now, mint, err already_applied)
unfolding apply coinbase_transfer run new_tx tx_set tx_get commit handle_commit oracle_commit
    insert_all mark any_newer key_set commit_time get put has bytes_eq be64 u64
apply-once_example = apply-once empty_state mint later mint true refl refl

apply-dry_rows_example :
    ((apply empty_state mint true).0.db.store ≡ []) × ((apply empty_state mint true).0.writes ≡ [])
apply-dry_rows_example = apply-dry_rows empty_state mint

apply-after_dry_example :
    (apply (apply empty_state mint true).0 (apply empty_state mint true).1 false).2
    ≡ err apply_conflict
unfolding apply coinbase_transfer run new_tx tx_set tx_get commit handle_commit oracle_commit
    insert_all mark any_newer key_set commit_time get put has bytes_eq be64 u64
apply-after_dry_example =
    apply-after_dry empty_state mint (balance_key alice) (omega arith) (omega arith) refl refl refl

abbrev log : List (List Write)
log = (mint ∷ []) ∷ (gift ∷ []) ∷ []

abbrev replayed : State
unfolding new_state
replayed = elim (new_state log) [ ok s ↦ s | err e ↦ empty_state ]

new_state-nonces_example :
    Distinct (nonces (all_writes log))
    × ((n : Bytes) → has n replayed.writes ≡ mem n (nonces (all_writes log)))
unfolding new_state replay_block replay_log apply coinbase_transfer run new_tx tx_set tx_get commit
    handle_commit oracle_commit insert_all mark any_newer key_set commit_time get put has bytes_eq
    be64 u64
new_state-nonces_example = new_state-nonces log replayed refl
