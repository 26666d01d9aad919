-- ===== src/Ssi/Bank/Total.antt =====
-- The money in the bank (exp/onl/ssi/bank.go).
use dd.Base.{
  ◌≡◌, refl, ℕ, ◌+◌, ◌%◌, ◌<◌, Option, true, false, none, some, List, [], ◌∷◌, Result, All, ok,
  length, arith, ap, Bool-cases, inl, inr,
}
use dd.Base.Bytes.{Bytes, bytes_eq, bytes_eq_iff, u64_mod}
use dd.Externals.{Crypto, Radix}
use dd.State.Replay.{Distinct, mem}
use dd.Ssi.{Db}
use dd.Ssi.Clock.{IsClocked}
use dd.Ssi.Bank.{Gob, less_i64, sub_i64, add_i64, current_balance}
use dd.Ssi.Bank.Ledger.{
  Accounts, set_balance, told, opened, transferred, Call, opens, transfers, promised, promised_all,
  execute_all, accounts_of, IsFit,
}
use dd.Ssi.Bank.Promise.{execute_all-promised, current_balance_lem}

-- what the names are told, added up
unfoldable pub sum_told : List Bytes → Accounts → ℕ
sum_told [] v = 0
sum_told (n ∷ ns) v = (told (v n)).0 + sum_told ns v

sum_told-absent :
    (k : Bytes) (n : ℕ) (names : List Bytes) (v : Accounts)
    → mem k names ≡ false
    → sum_told names (set_balance k n v) ≡ sum_told names v
unfolding sum_told told
sum_told-absent k n [] v h = refl
sum_told-absent k n (j ∷ ns) v h =
    ground (arith, sum_told-absent k n ns v, bytes_eq_iff j k, bytes_eq_iff k j)

sum_told-set :
    (k : Bytes) (n : ℕ) (names : List Bytes) (v : Accounts)
    → Distinct names
    → mem k names ≡ true
    → sum_told names (set_balance k n v) + (told (v k)).0 ≡ sum_told names v + n
unfolding sum_told told
sum_told-set k n [] v d h = cc
sum_told-set k n (j ∷ ns) v d h = ground (
  arith,
  d.0,
  sum_told-absent k n ns v,
  sum_told-set k n ns v d.1,
  bytes_eq_iff j k,
  bytes_eq_iff k j,
)

-- the opening balance of an account that was opened
unfoldable pub gained : Call → Result (Unit {0}) → ℕ
gained (opens name n) (ok _) = n
gained _ _ = 0

unfoldable pub gained_all : List Call → List (Result (Unit {0})) → ℕ
gained_all (call ∷ calls) (res ∷ results) = gained call res + gained_all calls results
gained_all _ _ = 0

-- The names of the call are in the list.
abbrev pub IsAmong : List Bytes → Call → Type 0
IsAmong names (opens name n) = mem name names ≡ true
IsAmong names (transfers amount from to) = (mem from names ≡ true) × (mem to names ≡ true)

opened-sum_told :
    (names : List Bytes) (name : Bytes) (n : ℕ) (v : Accounts) (row : Option ℕ)
    → Distinct names
    → mem name names ≡ true
    → v name ≡ row
    → sum_told names (opened name n v row).0
      ≡ sum_told names v + gained (opens name n) (opened name n v row).1
unfolding opened gained told
opened-sum_told names name n v (some a) d h e = omega arith
opened-sum_told names name n v none d h e = ground (arith, sum_told-set name n names v d h)

moved-sum_told :
    (names : List Bytes) (amount : ℕ) (from to : Bytes) (v : Accounts) (a b : ℕ)
    → amount < u64_mod
    → Distinct names
    → mem from names ≡ true
    → mem to names ≡ true
    → v from ≡ some a
    → v to ≡ some b
    → bytes_eq from to ≡ false
    → let v' = set_balance from (sub_i64 a amount) (set_balance to (add_i64 b amount) v) in
      sum_told names v' % u64_mod ≡ sum_told names v % u64_mod
unfolding told
moved-sum_told names amount from to v a b word d hf ht ef et other =
    let v1 = set_balance to (add_i64 b amount) v in
    let from_kept : v1 from ≡ some a = ground (arith, bytes_eq_iff from to, bytes_eq_iff to from) in
    let minus = rw from_kept at (sum_told-set from (sub_i64 a amount) names v1 d hf) in
    let plus = rw et at (sum_told-set to (add_i64 b amount) names v d ht) in
    omega (arith, minus, plus)

transferred-sum_told :
    (names : List Bytes) (amount : ℕ) (from to : Bytes) (v : Accounts) (a b : Option ℕ)
    → amount < u64_mod
    → Distinct names
    → mem from names ≡ true
    → mem to names ≡ true
    → v from ≡ a
    → v to ≡ b
    → sum_told names (transferred amount from to v a b).0 % u64_mod ≡ sum_told names v % u64_mod
unfolding transferred told
transferred-sum_told names amount from to v none b word d hf ht ef et = refl
transferred-sum_told names amount from to v (some a) none word d hf ht ef et = refl
transferred-sum_told names amount from to v (some a) (some b) word d hf ht ef et =
    elim (Bool-cases (bytes_eq from to)) [
      | inl same ↦ rw same refl
      | inr other ↦ elim (Bool-cases (less_i64 a amount)) [
        | inl poor ↦ rw (other, poor) refl
        | inr rich ↦
            rw (other, rich) (moved-sum_told names amount from to v a b word d hf ht ef et other)
      ]
    ]

promised-sum_told :
    (names : List Bytes) (call : Call) (v : Accounts)
    → ⦃c : Crypto⦄ → IsFit call
    → Distinct names
    → IsAmong names call
    → sum_told names (promised call v).0 % u64_mod
      ≡ (sum_told names v + gained call (promised call v).1) % u64_mod
unfolding promised gained
promised-sum_told names (opens name n) v fit d among =
    ap (λ s. s % u64_mod) (opened-sum_told names name n v (v name) d among refl)
promised-sum_told names (transfers amount from to) v fit d among = omega (
  arith,
  transferred-sum_told names amount from to v (v from) (v to) fit.0 d among.0 among.1 refl refl,
)

promised_all-sum_told :
    ⦃c : Crypto⦄ (names : List Bytes) (calls : List Call) (v : Accounts)
    → All IsFit calls
    → Distinct names
    → All (IsAmong names) calls
    → let (v', results) = promised_all calls v in
      sum_told names v' % u64_mod ≡ (sum_told names v + gained_all calls results) % u64_mod
unfolding promised_all gained_all
promised_all-sum_told names [] v fits d among = omega arith
promised_all-sum_told names (call ∷ calls) v fits d among = omega (
  arith,
  promised-sum_told names call v fits.0 d among.0,
  promised_all-sum_told names calls (promised call v).0 fits.1 d among.1,
)

module _ ⦃c : Crypto⦄ ⦃r : Radix⦄ ⦃g : Gob⦄ where
  -- the balances of the names, as the bank reports them
  unfoldable pub balances : List Bytes → Db → ℕ
  balances [] db = 0
  balances (n ∷ ns) db = (current_balance n db).1 + balances ns db

  balances-sum_told :
      (names : List Bytes) (db : Db) (v : Accounts)
      → ((name : Bytes) → let (n, res) = told (v name) in current_balance name db ≡ (db, n, res))
      → balances names db ≡ sum_told names v
  unfolding balances sum_told
  balances-sum_told [] db v h = refl
  balances-sum_told (name ∷ names) db v h = rw (h name, balances-sum_told names db v h) refl

  -- Money is neither lost nor made: after any calls among accounts of a list of distinct names, the
  -- balances of the names add up to what they were and the opening balances of the accounts that
  -- were opened, modulo 2^64. The clock of the database has room for the calls, no row is newer than
  -- it, the amounts are words, and the two accounts of a transfer do not share a hash.
  pub execute_all-balances :
      (names : List Bytes) (calls : List Call) (db : Db)
      → IsClocked db.oracle
      → db.oracle.time + length calls < u64_mod
      → All IsFit calls
      → Distinct names
      → All (IsAmong names) calls
      → let (db', results) = execute_all calls db in
        balances names db' % u64_mod ≡ (balances names db + gained_all calls results) % u64_mod
  execute_all-balances names calls db clocked room fits d among =
      let kept = execute_all-promised calls db clocked room fits in
      let at_start =
        balances-sum_told names db (accounts_of db) (λ name. current_balance_lem name db) in
      let at_end = balances-sum_told names (execute_all calls db).0 _ kept.1 in
      rw (at_start, at_end, kept.0)
        (promised_all-sum_told names calls (accounts_of db) fits d among)
