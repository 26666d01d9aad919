-- ===== src/Ssi/Bank/Commit.antt =====
-- The commit at the end of the operations of the bank (exp/onl/ssi/bank.go), and the balances after
-- it.
use dd.Base.{
  ◌≡◌, refl, ℕ, ◌+◌, ◌≤◌, ◌<◌, none, some, [], ◌∷◌, ok, length, arith, String, Result, err, ◌>>=◌,
  wrapped, Option-cases, inl, inr, ◌⊎◌,
}
use dd.Base.Bytes.{Bytes, u64_mod}
use dd.Externals.{Crypto, Radix}
use dd.Ssi.{
  Oracle, Db, TxData, KeyChangeSet, key_hash, key_set, any_newer, insert_all, commit, handle_commit,
}
use dd.Ssi.Clock.{IsClocked, stamped, oracle_commit_lem, oracle_commit-IsClocked}
use dd.Ssi.Rows.{any_newer_complete}
use dd.Ssi.Bank.{Gob, bint64, transport, commit_on}
use dd.Ssi.Bank.Ledger.{Accounts, set_balance, accounts_of}

-- An error that is wrapped is still an error.
wrapped-ok :
    {A B : Type 0} (s t : String) (m : Result A) (next : A → Result B) {b : B}
    → (m >>= next) ≡ ok b
    → (wrapped s m >>= (λ a. wrapped t (next a))) ≡ ok b
wrapped-ok s t (err e) next h = cc
wrapped-ok s t (ok a) next h = rw h refl

module _ ⦃g : Gob⦄ where
  bint64-encode_int : (n : ℕ) → n < u64_mod → bint64 (g.encode_int n) ≡ n
  unfolding bint64
  bint64-encode_int n fits = ground (arith, g.decode_int-encode_int n fits)

  pub transport_lem : (txd : TxData) → transport txd ≡ ok txd
  unfolding transport
  transport_lem txd =
      wrapped-ok _ _ (g.encode_data txd) g.decode_data (g.decode_data-encode_data txd)

module _ ⦃c : Crypto⦄ ⦃r : Radix⦄ ⦃g : Gob⦄ where
  -- the database after a commit that went through
  abbrev pub committed : Db → KeyChangeSet → Db
  committed db ws = record {
    oracle = stamped db.oracle (key_set ws);
    store = insert_all ws db.store;
  }

  pub commit_on-fresh :
      (db : Db) (txd : TxData)
      → IsClocked db.oracle
      → db.oracle.time + 1 < u64_mod
      → txd.time_start ≡ db.oracle.time
      → 1 ≤ length txd.write_rows
      → commit_on db txd ≡ (committed db txd.write_rows, ok tt)
  unfolding commit handle_commit
  commit_on-fresh db txd clocked room now some_writes = ground (
    arith,
    oracle_commit_lem db.oracle txd.read_rows (key_set txd.write_rows) txd.time_start room,
    any_newer_complete db.oracle txd.read_rows db.oracle.time clocked.reached,
  )

  committed-IsClocked :
      (db : Db) (ws : KeyChangeSet)
      → IsClocked db.oracle
      → db.oracle.time + 1 < u64_mod
      → IsClocked (committed db ws).oracle
  unfolding any_newer
  committed-IsClocked db ws clocked room = ground (
    arith,
    oracle_commit_lem db.oracle [] (key_set ws) 0 room,
    oracle_commit-IsClocked db.oracle [] (key_set ws) 0 room clocked,
  )

  -- An operation on `db` came out as `ideal` says.
  pub record Done (db : Db) (out : Db × Result (Unit {0})) (ideal : Accounts × Result (Unit {0}))
      : Type 0 where
    pub balances : (j : Bytes) → accounts_of out.0 j ≡ ideal.0 j
    pub result : out.1 ≡ ideal.1
    pub clocked : IsClocked out.0.oracle
    pub time : out.0.oracle.time ≤ db.oracle.time + 1

  pub Done-same :
      (db : Db) (v : Accounts) (out ideal : Result (Unit {0}))
      → IsClocked db.oracle
      → out ≡ ideal
      → ((j : Bytes) → accounts_of db j ≡ v j)
      → Done db (db, out) (v, ideal)
  Done-same db v out ideal clocked same h = record {
    balances = h;
    result = same;
    clocked = clocked;
    time = omega arith;
  }

  pub Done-committed :
      (db : Db) (ws : KeyChangeSet) (v : Accounts)
      → IsClocked db.oracle
      → db.oracle.time + 1 < u64_mod
      → ((j : Bytes) → accounts_of (committed db ws) j ≡ v j)
      → Done db (committed db ws, ok tt) (v, ok tt)
  Done-committed db ws v clocked room h = record {
    balances = h;
    result = refl;
    clocked = committed-IsClocked db ws clocked room;
    time = omega arith;
  }

  -- a row that is set, seen as a balance
  abbrev pub written : Bytes → ℕ → KeyChangeSet
  written name n = (key_hash name, record { k = name; v = g.encode_int n }) ∷ []

  pub accounts_of-insert :
      (name : Bytes) (n : ℕ) (o : Oracle) (t : r.Tree) (j : Bytes)
      → n < u64_mod
      → accounts_of (record { oracle = o; store = r.insert name (g.encode_int n) t }) j
        ≡ set_balance name n (accounts_of (record { oracle = o; store = t })) j
  unfolding accounts_of
  accounts_of-insert name n o t j fits =
      ground (arith, r.lookup-insert name j (g.encode_int n) t, bint64-encode_int n fits)

  pub accounts_of-oracle :
      (o : Oracle) (db : Db) (j : Bytes)
      → accounts_of (record { oracle = o; store = db.store }) j ≡ accounts_of db j
  unfolding accounts_of
  accounts_of-oracle o db j = refl

  pub accounts_of-row :
      (name : Bytes) (db : Db)
      → (accounts_of db name ≡ none) × (r.lookup name db.store ≡ none)
        ⊎ (raw : Bytes) × (accounts_of db name ≡ some (bint64 raw))
          × (r.lookup name db.store ≡ some raw)
  unfolding accounts_of
  accounts_of-row name db = elim (Option-cases (r.lookup name db.store)) [
    | inl e ↦ inl (ground arith, e)
    | inr (raw, e) ↦ inr (raw, ground arith, e)
  ]
