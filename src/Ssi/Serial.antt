-- ===== src/Ssi/Serial.antt =====
-- A client of the database of exp/onl/ssi among the requests of others.
use dd.Base.{
  ◌≡◌, refl, sym, ap, ◌∙◌, ℕ, ◌+◌, ◌≤◌, ◌<◌, ◌⊎◌, true, false, List, [], ◌∷◌, Bool, length, err, ok,
  conflict, arith, if◌then◌else◌, ltb, ◌==◌, Bool-cases, inl, inr,
}
use mathlib.Core.Path.{subst}
use dd.Base.Bytes.{Bytes, u64_mod, bytes_eq_refl}
use dd.Base.Map.{put, has, has-put}
use dd.Externals.{Crypto, Radix}
use dd.Ssi.{
  commit_time, any_newer, oracle_commit, TxData, Tx, Db, new_tx, key_hash, handle_commit, commit,
  key_set, add_key, add_change, tx_get, tx_set, KeySet, KeyChangeSet,
}
use dd.Ssi.Client.{Client, done, reads, writes, run}
use dd.Ssi.Rows.{
  has-key_set, any_newer_sound, any_newer_complete, IsKeyed, lookup-insert_all, commit_time-mark,
}
use dd.Ssi.Clock.{
  IsClocked, oracle_commit_lem, oracle_commit-time, oracle_commit-IsClocked, commit_time-grows,
}

module _ ⦃c : Crypto⦄ ⦃r : Radix⦄ where
  -- The requests of all clients, in the order in which the database takes them.
  unfoldable pub serve : Db → List (TxData × Bool) → Db
  serve db [] = db
  serve db ((txd, dry) ∷ rest) = serve (commit db txd dry).0 rest

  -- every change in the requests stands under the hash of its key
  abbrev pub AllKeyed : List (TxData × Bool) → Type 0
  AllKeyed [] = Unit
  AllKeyed ((txd, dry) ∷ rest) = IsKeyed txd.write_rows × AllKeyed rest

  -- What has happened to the database since time `ts`, when its rows were those of `t`: a row is as
  -- it was, or was committed later.
  pub record Since (ts : ℕ) (t : r.Tree) (db : Db) : Type 0 where
    pub clocked : IsClocked db.oracle
    pub later : ts ≤ db.oracle.time
    pub kept :
        (k : Bytes)
        → (r.lookup k db.store ≡ r.lookup k t) ⊎ (ts < commit_time db.oracle (key_hash k))

  Since-kept :
      (ts : ℕ) (t : r.Tree) (db : Db) (txd : TxData) (dry : Bool)
      → db.oracle.time + 1 < u64_mod
      → IsKeyed txd.write_rows
      → Since ts t db
      → (k : Bytes)
      → (r.lookup k (commit db txd dry).0.store ≡ r.lookup k t)
        ⊎ (ts < commit_time (commit db txd dry).0.oracle (key_hash k))
  unfolding commit handle_commit
  Since-kept ts t db txd dry room keyed h k = ground (
    arith,
    h.kept k,
    h.later,
    oracle_commit_lem db.oracle txd.read_rows (key_set txd.write_rows) txd.time_start room,
    commit_time-mark (db.oracle.time + 1) (key_hash k) (key_set txd.write_rows) db.oracle,
    commit_time-grows db.oracle txd.read_rows (key_set txd.write_rows) txd.time_start room h.clocked
        (key_hash k),
    has-key_set (key_hash k) txd.write_rows,
    lookup-insert_all k txd.write_rows db.store keyed,
  )

  commit-oracle :
      (db : Db) (txd : TxData) (dry : Bool)
      → (commit db txd dry).0.oracle ≡ (
          if ltb (length txd.write_rows) 1
          then db.oracle
          else (oracle_commit db.oracle txd.read_rows (key_set txd.write_rows) txd.time_start).0)
  unfolding commit handle_commit
  commit-oracle db txd dry = ground arith

  commit-IsClocked :
      (db : Db) (txd : TxData) (dry : Bool)
      → db.oracle.time + 1 < u64_mod
      → IsClocked db.oracle
      → IsClocked (commit db txd dry).0.oracle
  commit-IsClocked db txd dry room h =
      rw commit-oracle (elim (Bool-cases (ltb (length txd.write_rows) 1)) [
        | inl e ↦ rw e h
        | inr e ↦ rw e (oracle_commit-IsClocked db.oracle _ _ _ room h)
      ])

  commit-time :
      (db : Db) (txd : TxData) (dry : Bool)
      → db.oracle.time + 1 < u64_mod
      → (db.oracle.time ≤ (commit db txd dry).0.oracle.time)
        × ((commit db txd dry).0.oracle.time ≤ db.oracle.time + 1)
  commit-time db txd dry room = ground (
    arith,
    commit-oracle db txd dry,
    oracle_commit-time db.oracle txd.read_rows (key_set txd.write_rows) txd.time_start room,
  )

  pub serve-Since :
      (reqs : List (TxData × Bool)) (ts : ℕ) (t : r.Tree) (db : Db)
      → db.oracle.time + length reqs < u64_mod
      → AllKeyed reqs
      → Since ts t db
      → Since ts t (serve db reqs)
  unfolding serve
  serve-Since [] ts t db room keyed h = h
  serve-Since ((txd, dry) ∷ rest) ts t db room keyed h =
      let room' : db.oracle.time + 1 < u64_mod = omega arith in
      serve-Since rest ts t (commit db txd dry).0 (omega (arith, commit-time db txd dry room'))
        keyed.1
        (record {
          clocked = commit-IsClocked db txd dry room' h.clocked;
          later = omega (arith, commit-time db txd dry room', h.later);
          kept = Since-kept ts t db txd dry room' keyed.0 h;
        })

  Since-start : (db : Db) → IsClocked db.oracle → Since db.oracle.time db.store db
  Since-start db h = record { clocked = h; later = omega arith; kept = λ k. inl refl }

  -- A commit that goes through has found no newer row among those that it read.
  commit-any_newer :
      (db : Db) (txd : TxData) (dry : Bool)
      → 1 ≤ length txd.write_rows
      → (commit db txd dry).2 ≡ ok tt
      → any_newer db.oracle txd.read_rows txd.time_start ≡ false
  unfolding commit handle_commit oracle_commit
  commit-any_newer db txd dry some_writes h = ground arith

  Since-read :
      (ts : ℕ) (t : r.Tree) (db : Db) (rr : KeySet)
      → Since ts t db
      → any_newer db.oracle rr ts ≡ false
      → (k : Bytes) → has (key_hash k) rr ≡ true
      → r.lookup k t ≡ r.lookup k db.store
  Since-read ts t db rr h old k p =
      ground (arith, h.kept k, any_newer_sound db.oracle rr ts (key_hash k))

  -- The two trees hold the same values for the keys of `rr`.
  abbrev pub Agree : KeySet → r.Tree → r.Tree → Type 0
  Agree rr s t = (k : Bytes) → has (key_hash k) rr ≡ true → r.lookup k s ≡ r.lookup k t

  has-put_self : (k : Bytes) (rr : KeySet) → has k (put k tt rr) ≡ true
  has-put_self k rr = ground (arith, has-put k k tt rr, bytes_eq_refl k)

  run-reads_grow :
      {A : Type 0} (p : Client A) (tx : Tx) (j : Bytes)
      → has j tx.txd.read_rows ≡ true
      → has j (run p tx).1.txd.read_rows ≡ true
  unfolding run tx_get tx_set
  run-reads_grow (done x) tx j h = h
  run-reads_grow (reads k f) tx j h =
      run-reads_grow (f (r.lookup k tx.snapshot)) _ j
        (ground (arith, has-put (key_hash k) j tt tx.txd.read_rows))
  run-reads_grow (writes k v p) tx j h = run-reads_grow p _ j h

  -- What a client reads decides what it does.
  run-Agree :
      {A : Type 0} (p : Client A) (a b : Tx)
      → a.txd.read_rows ≡ b.txd.read_rows
      → a.txd.write_rows ≡ b.txd.write_rows
      → Agree (run p a).1.txd.read_rows a.snapshot b.snapshot
      → ((run p a).0 ≡ (run p b).0)
        × ((run p a).1.txd.read_rows ≡ (run p b).1.txd.read_rows)
        × ((run p a).1.txd.write_rows ≡ (run p b).1.txd.write_rows)
  unfolding run tx_get tx_set new_tx
  run-Agree (done x) a b er ew h = (refl, er, ew)
  run-Agree (reads k f) a b er ew h =
      let e : r.lookup k a.snapshot ≡ r.lookup k b.snapshot = h k (
        run-reads_grow (f (r.lookup k a.snapshot)) (tx_get k a).1 (key_hash k)
          (has-put_self (key_hash k) a.txd.read_rows)) in
      subst
        (λ w.
          Agree (run (f w) (tx_get k a).1).1.txd.read_rows a.snapshot b.snapshot
          → ((run (f w) (tx_get k a).1).0 ≡ (run (reads k f) b).0)
            × ((run (f w) (tx_get k a).1).1.txd.read_rows ≡ (run (reads k f) b).1.txd.read_rows)
            × ((run (f w) (tx_get k a).1).1.txd.write_rows ≡ (run (reads k f) b).1.txd.write_rows))
        (sym e)
        (run-Agree (f (r.lookup k b.snapshot)) (tx_get k a).1 (tx_get k b).1 (ap (add_key k) er) ew)
        h
  run-Agree (writes k v p) a b er ew h =
      run-Agree p _ _ er (ap (λ m. add_change k v m) ew)
        (λ j pj. simp r.lookup-insert (ground (arith, h j)))

  -- The effect of a commit on the database, and its result.
  commit-parts :
      (db : Db) (txd : TxData) (dry : Bool)
      → let (db', tc) = handle_commit db txd.read_rows txd.write_rows txd.time_start dry in
        let empty = ltb (length txd.write_rows) 1 in
        ((commit db txd dry).0 ≡ (if empty then db else db'))
        × ((commit db txd dry).2
            ≡ (if empty then ok tt else if tc == 0 then err conflict else ok tt))
  unfolding commit
  commit-parts db txd dry = ground arith

  handle_commit-passed :
      (db : Db) (rr : KeySet) (ws : KeyChangeSet) (s t : ℕ)
      → any_newer db.oracle rr s ≡ false
      → any_newer db.oracle rr t ≡ false
      → handle_commit db rr ws s false ≡ handle_commit db rr ws t false
  unfolding handle_commit oracle_commit
  handle_commit-passed db rr ws s t hs ht = rw (hs, ht) refl

  -- Two data with the same rows that pass the test of the read set have the same effect.
  commit-passed :
      (db : Db) (a b : TxData)
      → a.read_rows ≡ b.read_rows
      → a.write_rows ≡ b.write_rows
      → any_newer db.oracle a.read_rows a.time_start ≡ false
      → any_newer db.oracle b.read_rows b.time_start ≡ false
      → ((commit db a false).0 ≡ (commit db b false).0)
        × ((commit db a false).2 ≡ (commit db b false).2)
  commit-passed db a b er ew ha hb =
      let same : handle_commit db a.read_rows a.write_rows a.time_start false
          ≡ handle_commit db b.read_rows b.write_rows b.time_start false =
        rw (← er, ← ew)
          (handle_commit-passed db a.read_rows a.write_rows a.time_start b.time_start ha
            (rw er hb)) in
      (
        (commit-parts db a false).0 ∙ cc (same, ew) ∙ sym (commit-parts db b false).0,
        (commit-parts db a false).1 ∙ cc (same, ew) ∙ sym (commit-parts db b false).1,
      )

  run-time_start :
      {A : Type 0} (p : Client A) (tx : Tx) → (run p tx).1.txd.time_start ≡ tx.txd.time_start
  unfolding run tx_get tx_set
  run-time_start (done x) tx = refl
  run-time_start (reads k f) tx = run-time_start (f (r.lookup k tx.snapshot)) _
  run-time_start (writes k v p) tx = run-time_start p _

  -- A client starts on the database `db` and commits after the requests `reqs` of others. If its
  -- commit writes something and goes through, then running the same client again, started only
  -- now, has the same effect: its result, the database and the commit's success are the same. No
  -- row of `db` is newer than its clock, the clock has room for the requests, and the changes of
  -- the requests stand under the hashes of their keys; the hashes may collide.
  pub commit-serializable :
      {A : Type 0} (p : Client A) (db : Db) (reqs : List (TxData × Bool))
      → IsClocked db.oracle
      → db.oracle.time + length reqs < u64_mod
      → AllKeyed reqs
      → 1 ≤ length (run p (new_tx db)).1.txd.write_rows
      → (commit (serve db reqs) (run p (new_tx db)).1.txd false).2 ≡ ok tt
      → let now = serve db reqs in
        ((run p (new_tx db)).0 ≡ (run p (new_tx now)).0)
        × ((commit now (run p (new_tx db)).1.txd false).0
            ≡ (commit now (run p (new_tx now)).1.txd false).0)
        × ((commit now (run p (new_tx now)).1.txd false).2 ≡ ok tt)
  unfolding new_tx
  commit-serializable p db reqs clocked room keyed some_writes passed =
      let now = serve db reqs in
      let tx = (run p (new_tx db)).1 in
      let since = serve-Since reqs db.oracle.time db.store db room keyed (Since-start db clocked) in
      let old = commit-any_newer now tx.txd false some_writes passed in
      let old' : any_newer now.oracle tx.txd.read_rows db.oracle.time ≡ false =
        subst (λ s. any_newer now.oracle tx.txd.read_rows s ≡ false) (run-time_start p (new_tx db))
          old in
      let agree : Agree tx.txd.read_rows db.store now.store =
        Since-read db.oracle.time db.store now tx.txd.read_rows since old' in
      let same = run-Agree p (new_tx db) (new_tx now) refl refl agree in
      let fresh : any_newer now.oracle (run p (new_tx now)).1.txd.read_rows
            (run p (new_tx now)).1.txd.time_start
          ≡ false =
        any_newer_complete now.oracle _ _
          (rw (run-time_start p (new_tx now)) since.clocked.reached) in
      let both = commit-passed now tx.txd (run p (new_tx now)).1.txd same.1 same.2 old fresh in
      (same.0, both.0, sym both.1 ∙ passed)
