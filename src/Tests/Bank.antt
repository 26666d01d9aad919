-- ===== src/Tests/Bank.antt =====
-- Tests of the sample bank (exp/onl/ssi/bank.go).
use dd.Base.{
  ℕ, ◌<◌, ◌≡◌, refl, some, List, [], ◌∷◌, ok, err, account_exists, account_not_exist,
  not_enough_funds, arith, ◌%◌, ◌+◌, All,
}
use dd.Base.Bytes.{Bytes, bytes_eq, be64, u64, u64-be64, u64_mod}
use dd.Base.Map.{get}
use dd.Ssi.{new_db}
use dd.Ssi.Clock.{IsClocked-new_oracle}
use dd.Ssi.Bank.{Gob, current_balance}
use dd.Ssi.Bank.Ledger.{
  Call, opens, transfers, told, opened, transferred, promised, promised_all, execute_all,
  accounts_of, IsFit,
}
use dd.Ssi.Bank.Promise.{execute_all-promised}
use dd.Ssi.Bank.Total.{balances, gained_all, execute_all-balances}
use dd.Tests.Memory.{crypto, radix}

read_back : (n : ℕ) → n < u64_mod → u64 (be64 n) ≡ some n
unfolding be64
read_back n fits = u64-be64 n [] fits

instance abbrev gob : Gob
gob = record {
  Message = dd.Ssi.TxData;
  encode_int = be64;
  decode_int = u64;
  encode_data = λ txd. ok txd;
  decode_data = λ txd. ok txd;
  decode_int-encode_int = read_back;
  decode_data-encode_data = λ txd. refl;
}

abbrev alex : Bytes
alex = 1 ∷ []

abbrev bob : Bytes
bob = 2 ∷ []

abbrev carl : Bytes
carl = 3 ∷ []

abbrev calls : List Call
calls =
    opens alex 100
    ∷ opens bob 0
    ∷ opens alex 7
    ∷ transfers 40 alex bob
    ∷ transfers 61 alex bob
    ∷ transfers 5 alex carl
    ∷ []

calls-IsFit : All IsFit calls
calls-IsFit = (
  omega arith,
  (
    omega arith,
    (omega arith, ((omega arith, λ e. e), ((omega arith, λ e. e), ((omega arith, λ e. e), tt)))),
  ),
)

execute_all-promised_example :
    let (db', results) = execute_all calls new_db in
    let (v, expected) = promised_all calls (accounts_of new_db) in
    (results ≡ expected)
    × ((name : Bytes) → let (n, res) = told (v name) in current_balance name db' ≡ (db', n, res))
execute_all-promised_example =
    execute_all-promised calls new_db IsClocked-new_oracle (omega arith) calls-IsFit

-- what the calls come to
promised-calls :
    let (v, results) = promised_all calls (accounts_of new_db) in
    (results
      ≡ ok tt
        ∷ ok tt
        ∷ err account_exists
        ∷ ok tt
        ∷ err not_enough_funds
        ∷ err account_not_exist
        ∷ [])
    × (v alex ≡ some 60)
    × (v bob ≡ some 40)
unfolding promised_all promised opened transferred accounts_of get bytes_eq
promised-calls = (refl, refl, refl)

execute_all-balances_example :
    let (db', results) = execute_all calls new_db in
    let names = alex ∷ bob ∷ carl ∷ [] in
    balances names db' % u64_mod ≡ (balances names new_db + gained_all calls results) % u64_mod
unfolding bytes_eq
execute_all-balances_example =
    execute_all-balances (alex ∷ bob ∷ carl ∷ []) calls new_db IsClocked-new_oracle (omega arith)
      calls-IsFit (refl, (refl, (refl, tt)))
      (refl, (refl, (refl, ((refl, refl), ((refl, refl), ((refl, refl), tt))))))
