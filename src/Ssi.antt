-- ===== src/Ssi.antt =====
-- The serializable snapshot isolation of exp/onl/ssi: key sets (keys.go), the status oracle
-- (oracle.go), transactions (tx.go) and the database (db.go). The goroutine of the database takes
-- one request at a time from its two channels: `new_tx` and `commit` are its two cases, and any
-- interleaving of clients is a sequence of them.
pub mod Client
pub mod Rows
pub mod Clock
pub mod Serial
pub mod Bank
use dd.Base.{
  ℕ, ◌+◌, ◌%◌, Bool, false, ◌||◌, Option, none, some, [], ◌∷◌, Result, ok, err, conflict, length,
  ltb, ◌==◌, if◌then◌else◌,
}
use dd.Base.Bytes.{Bytes, u64_mod}
use dd.Base.Map.{Map, get, put}
use dd.Externals.{Crypto, Radix}

pub record Change : Type 0 where
  pub k : Bytes
  pub v : Bytes

abbrev pub KeySet : Type 0
KeySet = Map (Unit {0})

abbrev pub KeyChangeSet : Type 0
KeyChangeSet = Map Change

-- `KeyChangeSet.KeySet`
unfoldable pub key_set : KeyChangeSet → KeySet
key_set [] = []
key_set ((k, _) ∷ kvs) = put k tt (key_set kvs)

pub record Oracle : Type 0 where
  pub time : ℕ
  pub commits : Map ℕ

-- `NewOracle`
abbrev pub new_oracle : Oracle
new_oracle = record { time = 1; commits = [] }

-- `o.commits[r]`, 0 for a key that was never written
unfoldable pub commit_time : Oracle → Bytes → ℕ
commit_time o r = elim (get r o.commits) [ none ↦ 0 | some t ↦ t ]

-- the loop of `Oracle.Commit` over the read set
unfoldable pub any_newer : Oracle → KeySet → ℕ → Bool
any_newer o [] ts = false
any_newer o ((r, _) ∷ rr) ts = ltb ts (commit_time o r) || any_newer o rr ts

-- its loop over the write set
unfoldable pub mark : ℕ → KeySet → Map ℕ → Map ℕ
mark t [] commits = commits
mark t ((r, _) ∷ ws) commits = mark t ws (put r t commits)

-- `Oracle.Commit`: the new oracle and the commit time, 0 for a conflict
unfoldable pub oracle_commit : Oracle → KeySet → KeySet → ℕ → Oracle × ℕ
oracle_commit o rr ws ts =
    let time = (o.time + 1) % u64_mod in
    if any_newer o rr ts
    then (o, 0)
    else (record { time = time; commits = mark time ws o.commits }, time)

pub record TxData : Type 0 where
  pub time_start : ℕ
  pub time_commit : ℕ
  pub read_rows : KeySet
  pub write_rows : KeyChangeSet

module _ ⦃c : Crypto⦄ where
  -- `keyHash`
  abbrev pub key_hash : Bytes → Bytes
  key_hash k = c.sha256 k

  -- `KeySet.Add`
  abbrev pub add_key : Bytes → KeySet → KeySet
  add_key k ks = put (key_hash k) tt ks

  -- `KeyChangeSet.Add`
  abbrev pub add_change : Bytes → Bytes → KeyChangeSet → KeyChangeSet
  add_change k v kvs = put (key_hash k) (record { k = k; v = v }) kvs

module _ ⦃r : Radix⦄ where
  pub record Tx : Type 0 where
    pub snapshot : r.Tree
    pub txd : TxData

  pub record Db : Type 0 where
    pub oracle : Oracle
    pub store : r.Tree

  -- `NewDB`
  abbrev pub new_db : Db
  new_db = record { oracle = new_oracle; store = r.new }

  -- the case of `db.txReqs`
  unfoldable pub new_tx : Db → Tx
  new_tx db = record {
    snapshot = db.store;
    txd = record { time_start = db.oracle.time; time_commit = 0; read_rows = []; write_rows = [] };
  }

  -- the loop that writes the changes to the store
  unfoldable pub insert_all : KeyChangeSet → r.Tree → r.Tree
  insert_all [] t = t
  insert_all ((_, change) ∷ ws) t = insert_all ws (r.insert change.k change.v t)

  -- the case of `db.commitReqs`: the database and the commit time that is sent back
  unfoldable pub handle_commit : Db → KeySet → KeyChangeSet → ℕ → Bool → Db × ℕ
  handle_commit db rr ws ts dry =
      let (oracle, tc) = oracle_commit db.oracle rr (key_set ws) ts in
      if tc == 0 then (record db { oracle = oracle }, 0) else (
        record { oracle = oracle; store = if dry then db.store else insert_all ws db.store },
        tc,
      )

  -- `DB.Commit`: the data comes back with its commit time set
  unfoldable pub commit : Db → TxData → Bool → Db × TxData × Result (Unit {0})
  commit db txd dry =
      let (db', tc) = handle_commit db txd.read_rows txd.write_rows txd.time_start dry in
      if ltb (length txd.write_rows) 1
      then (db, txd, ok tt)
      else (db', record txd { time_commit = tc }, if tc == 0 then err conflict else ok tt)

module _ ⦃c : Crypto⦄ ⦃r : Radix⦄ where
  -- `Tx.Set`
  unfoldable pub tx_set : Bytes → Bytes → Tx → Tx
  tx_set k v tx = record {
    snapshot = r.insert k v tx.snapshot;
    txd = record tx.txd { write_rows = add_change k v tx.txd.write_rows };
  }

  -- `Tx.Get`: the value, none for nil, and the transaction that has recorded the read
  unfoldable pub tx_get : Bytes → Tx → Option Bytes × Tx
  tx_get k tx = (
    r.lookup k tx.snapshot,
    record tx { txd = record tx.txd { read_rows = add_key k tx.txd.read_rows } },
  )
