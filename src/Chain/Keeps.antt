-- ===== src/Chain/Keeps.antt =====
-- What `Append` does to the blocks of the store (exp/onl/chain.go).
use mathlib.Core.Path.{subst, fun_ext}
use dd.Base.{
  ◌≡◌, refl, ap, sym, ◌∙◌, ℕ, ◌<◌, Bool, true, false, Result, ok, err, >>=-eq-ok, wrapped, arith,
  Bool-cases, Result-cases, Returns, Returns-eq-ok, inl, inr, if◌then◌else◌,
}
use dd.Base.Bytes.{u64_mod, bytes_eq, bytes_eq_sound}
use dd.Base.Map.{put}
use dd.Externals.{Crypto, Radix}
use dd.Kv.{Pk}
use dd.Block.{Block, BlockId, block_hash, id_round, id_round-block_hash}
use dd.Store.{Entry, StoreTx, StoreLaws}
use dd.Store.Laws.{wrapped-eq-ok}
use dd.Chain.{Chain}
use dd.Chain.Walk.{walk, walk_fuel}
use dd.Chain.Weigh.{weigh}
use dd.Chain.Append.{Accepted, cast, vote, commit_result, check, finish, append}
use dd.Chain.Ends.{IsChained, blocks, block_of}
use dd.Chain.Reads.{weigh-reads}
use dd.Chain.Found.{walk-keeps}
use dd.Chain.Accept.{check-Passed}

-- the blocks after a write of `b`
abbrev pub with_block : ⦃c : Crypto⦄ → Block → (BlockId → Result Block) → BlockId → Result Block
with_block b f id = if bytes_eq (block_hash b) id then ok b else f id

module _ ⦃c : Crypto⦄ (gen : BlockId) (f : BlockId → Result Block) (chained : IsChained gen f) where
  -- blocks of the same identifier have the same round
  same-round :
      (id : BlockId) (a b : Block)
      → block_hash a ≡ id
      → block_hash b ≡ id
      → a.round < u64_mod
      → b.round < u64_mod
      → a.round ≡ b.round
  same-round id a b ha hb la lb =
      sym (id_round-block_hash a la) ∙ ap id_round (ha ∙ sym hb) ∙ id_round-block_hash b lb

  -- a block that was there is there, or another one of its round
  replaced :
      (b : Block) (id : BlockId) (q : Block)
      → b.round < u64_mod
      → f id ≡ ok q
      → (q' : Block) × (with_block b f id ≡ ok q') × (q'.round ≡ q.round)
  replaced b id q bound at = elim (Bool-cases (bytes_eq (block_hash b) id)) [
    | inl same ↦
        let own = chained.own id q at in
        (
          b,
          rw same refl,
          same-round id b q (bytes_eq_sound (block_hash b) id same) own.0 bound own.1,
        )
    | inr other ↦ (q, rw other at, refl)
  ]

  with_block-IsChained :
      (b p : Block)
      → b.round < u64_mod
      → f b.prev ≡ ok p
      → p.round < b.round
      → IsChained gen (with_block b f)
  with_block-IsChained b p bound before lower = record {
    root = let (q, at, same) = replaced b gen chained.root.0 bound chained.root.1 in (q, at);
    own = own;
    linked = linked;
  }
    where
      own :
          (id : BlockId) (a : Block)
          → with_block b f id ≡ ok a
          → (block_hash a ≡ id) × (a.round < u64_mod)
      own id a at = elim (Bool-cases (bytes_eq (block_hash b) id)) [
        | inl same ↦
            subst (λ out. Returns (λ (v : Block). (block_hash v ≡ id) × (v.round < u64_mod)) out)
              (rw same at at) (bytes_eq_sound (block_hash b) id same, bound)
        | inr other ↦ chained.own id a (rw other at at)
      ]

      lower_in :
          (id : BlockId) (n : ℕ) (q : Block)
          → f id ≡ ok q
          → q.round < n
          → (v : Block) × (with_block b f id ≡ ok v) × (v.round < n)
      lower_in id n q at lt =
          let (v, now, same) = replaced b id q bound at in (v, now, omega (arith, same, lt))

      linked :
          (id : BlockId) (a : Block)
          → with_block b f id ≡ ok a
          → bytes_eq id gen ≡ false
          → (q : Block) × (with_block b f a.prev ≡ ok q) × (q.round < a.round)
      linked id a at inner = elim (Bool-cases (bytes_eq (block_hash b) id)) [
        | inl same ↦
            subst
              (λ out.
                Returns
                  (λ (v : Block).
                    (q : Block) × (with_block b f v.prev ≡ ok q) × (q.round < v.round))
                  out)
              (rw same at at) (lower_in b.prev b.round p before lower)
        | inr other ↦
            let (q, there, lt) = chained.linked id a (rw other at at) inner in
            lower_in a.prev a.round q there lt
      ]

commit_result-eq-ok : {A : Type 0} (res : Result A) {a : A} → commit_result res ≡ ok a → res ≡ ok a
commit_result-eq-ok (ok v) h = h
commit_result-eq-ok (err e) h = ground arith

block_of-if :
    (d : Bool) (e : Entry) (res : Result Entry)
    → block_of (if d then ok e else res) ≡ (if d then ok e.block else block_of res)
block_of-if true e res = refl
block_of-if false e res = refl

module _ ⦃c : Crypto⦄ ⦃x : StoreTx⦄ (laws : StoreLaws x) where
  -- the same blocks are in both
  abbrev pub SameBlocks : x.T → x.T → Type 0
  SameBlocks t u = (id : BlockId) → blocks u id ≡ blocks t id

  pub SameBlocks-IsChained :
      (gen : BlockId) (t u : x.T)
      → SameBlocks t u
      → IsChained gen (blocks t)
      → IsChained gen (blocks u)
  SameBlocks-IsChained gen t u same h = subst (IsChained gen) (fun_ext (λ id. sym (same id))) h

  pub blocks-write :
      (e : Entry) (t u : x.T) (id : BlockId)
      → x.write e t ≡ ok u
      → blocks u id ≡ with_block e.block (blocks t) id
  blocks-write e t u id h =
      ap block_of (laws.read-write e t u id h)
      ∙ block_of-if (bytes_eq (block_hash e.block) id) e (x.read id t)

  -- Writing a block keeps the chain, where the block before it is in the store and of a lower
  -- round. A block that it replaces has the same identifier, and with it the same round.
  pub write-IsChained :
      (gen : BlockId) (e p : Entry) (t u : x.T)
      → IsChained gen (blocks t)
      → e.block.round < u64_mod
      → x.read e.block.prev t ≡ ok p
      → p.block.round < e.block.round
      → x.write e t ≡ ok u
      → IsChained gen (blocks u)
  write-IsChained gen e p t u chained bound before lower written =
      subst (IsChained gen) (fun_ext (λ id. sym (blocks-write e t u id written))) (
        with_block-IsChained gen (blocks t) chained e.block p.block bound (ap block_of before)
          lower)

  -- an entry that is written back under its block leaves the blocks as they are
  rewrite-SameBlocks :
      (gen : BlockId) (e e' : Entry) (id : BlockId) (t u : x.T)
      → IsChained gen (blocks t)
      → x.read id t ≡ ok e
      → e'.block ≡ e.block
      → x.write e' t ≡ ok u
      → SameBlocks t u
  rewrite-SameBlocks gen e e' id t u chained at same written j =
      elim (Bool-cases (bytes_eq (block_hash e'.block) j)) [
        | inr other ↦ blocks-write e' t u j written ∙ rw other refl
        | inl here ↦
            let own = chained.own id e.block (ap block_of at) in
            let there : id ≡ j =
              sym own.0 ∙ ap block_hash (sym same) ∙ bytes_eq_sound (block_hash e'.block) j here in
            blocks-write e' t u j written
            ∙ rw here (ap ok same ∙ sym (ap block_of at) ∙ ap (λ i. blocks t i) there)
      ]

  -- the votes for the ancestry change no block
  vote-SameBlocks :
      (root gen : BlockId) (t u : x.T) (id : BlockId) (pk : Pk) (stake : ℕ)
      → IsChained root (blocks t)
      → vote gen t id pk stake ≡ ok u
      → SameBlocks t u
  unfolding vote cast
  vote-SameBlocks root gen t u id pk stake chained h =
      let (res, walked, h1) =
        >>=-eq-ok (wrapped "failed to walk" (walk gen (cast pk stake) (walk_fuel id) id (tt, t))) _
          h in
      subst (λ out. Returns (SameBlocks t) out) h1
        (walk-keeps (λ st. SameBlocks t st.1) gen (cast pk stake) cast-keeps (walk_fuel id) id
          (tt, t) res (λ j. refl) (wrapped-eq-ok _ _ walked))
    where
      cast-keeps :
          (i : BlockId) (e : Entry) (st st' : Unit {0} × x.T)
          → x.read i st.1 ≡ ok e
          → SameBlocks t st.1
          → cast pk stake i e st ≡ ok st'
          → SameBlocks t st'.1
      cast-keeps i e st st' at same called =
          let e' = record e { stakes = record e.stakes { votes = put pk stake e.stakes.votes } } in
          let (v, written, h1) = >>=-eq-ok (x.write e' st.1) _ called in
          subst (λ out. Returns (λ (q : Unit {0} × x.T). SameBlocks t q.1) out) h1
            (λ j.
              rewrite-SameBlocks root e e' i st.1 v (SameBlocks-IsChained root t st.1 same chained)
                at refl written j
              ∙ same j)

  commit-SameBlocks : (t u : x.T) → commit_result (x.commit t) ≡ ok u → SameBlocks t u
  commit-SameBlocks t u h j =
      ap block_of (laws.read-commit t u j (commit_result-eq-ok (x.commit t) h))

module _ ⦃c : Crypto⦄ ⦃r : Radix⦄ ⦃x : StoreTx⦄ (laws : StoreLaws x) where
  reads-IsChained :
      (gen : BlockId) (t u : x.T)
      → ((id : BlockId) → x.read id u ≡ x.read id t)
      → IsChained gen (blocks t)
      → IsChained gen (blocks u)
  reads-IsChained gen t u same = SameBlocks-IsChained laws gen t u (λ j. ap block_of (same j))

  -- the write of a block that has passed the checks
  accepted-IsChained :
      (ch : Chain) (t u : x.T) (b : Block) (acc : Accepted)
      → b.round < u64_mod
      → IsChained ch.genesis_id (blocks t)
      → check ch t b ≡ ok acc
      → x.write acc.entry t ≡ ok u
      → IsChained ch.genesis_id (blocks u)
  accepted-IsChained ch t u b acc bound chained passed written =
      let facts = check-Passed ch t b acc passed in
      write-IsChained laws ch.genesis_id _ facts.before t u chained bound facts.before_read
        facts.before_round (subst (λ e. x.write e t ≡ ok u) facts.entry written)

  -- the votes and the commit
  finish-IsChained :
      (root : BlockId) (ch : Chain) (t u : x.T) (b : Block) (stake : ℕ)
      → IsChained root (blocks t)
      → finish ch t b stake ≡ ok u
      → IsChained root (blocks u)
  unfolding finish
  finish-IsChained root ch t u b stake chained h =
      let (v, voted, h1) =
        >>=-eq-ok (wrapped "failed to vote on ancestory" (vote ch.genesis_id t b.prev b.pk stake)) _
          h in
      SameBlocks-IsChained laws root v u (commit-SameBlocks laws v u h1) (
        SameBlocks-IsChained laws root t v
          (vote-SameBlocks laws root ch.genesis_id t v b.prev b.pk stake chained
            (wrapped-eq-ok _ _ voted))
          chained)

  -- If `Append` returns no error for a block of a 64-bit round, and the blocks of the store lead to
  -- the genesis through falling rounds, each under its hash, then so do those of the store after
  -- the commit, whatever the weighing has made of the tip; where the transactions of the store keep
  -- their promises.
  pub append-IsChained :
      (ch : Chain) (t u : x.T) (b : Block)
      → b.round < u64_mod
      → IsChained ch.genesis_id (blocks t)
      → (append ch t b).1 ≡ ok u
      → IsChained ch.genesis_id (blocks u)
  unfolding append
  append-IsChained ch t u b bound chained h = elim (Result-cases (check ch t b)) [
    | inr (e, failed) ↦ cc (rw (failed, append) at h)
    | inl (acc, passed) ↦ elim (Result-cases (x.write acc.entry t)) [
      | inr (e, failed) ↦ cc (rw (failed, append) at (rw (passed, append) at h))
      | inl (t1, written) ↦
          let h1 = rw (written, append) at (rw (passed, append) at h) in
          elim (Result-cases (weigh ch t1 b.round).1) [
            | inr (e, failed) ↦ cc (rw (failed, append) at h1)
            | inl (t2, weighed) ↦
                let h2 : finish (weigh ch t1 b.round).0 t2 b acc.stake ≡ ok u =
                  rw (weighed, append) at h1 in
                finish-IsChained ch.genesis_id (weigh ch t1 b.round).0 t2 u b acc.stake
                  (reads-IsChained ch.genesis_id t1 t2
                    (Returns-eq-ok _ _ (weigh-reads laws ch t1 b.round) weighed)
                    (accepted-IsChained ch t t1 b acc bound chained passed written))
                  h2
          ]
    ]
  ]
