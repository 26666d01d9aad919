-- ===== src/Store/Laws.antt =====
-- `BadgerTx` of exp/onl/store.go against the interface of a transaction.
use dd.Base.{
  ◌≡◌, refl, ap, String, ◌∙◌, Bool-cases, inl, inr, ℕ, ◌<◌, Bool, some, ◌++◌, Result, ok, err,
  length, take, drop, arith, if◌then◌else◌, >>=-eq-ok, wrapped, ◌∷◌, [], List, suc, zero,
}
use dd.Base.Bytes.{Bytes, u64_mod, be64, u64, bytes_eq}
use dd.Externals.{Crypto}
use dd.Block.{BlockId, block_hash}
use dd.Store.{Entry, StoreLaws}
use dd.Store.Badger.{
  BadgerTxn, Gob, tip_key, id2key, read_tip, write_tip, write, read, decode, badger_tx,
}

pub wrapped-eq-ok {ℓ} :
    {A : Type ℓ} (s : String) (m : Result A) {a : A} → wrapped s m ≡ ok a → m ≡ ok a
wrapped-eq-ok s (ok a) h = h
wrapped-eq-ok s (err e) h = cc

pub take-append {ℓ} : {A : Type ℓ} (n : ℕ) (xs ys : List A) → length xs ≡ n → take n (xs ++ ys) ≡ xs
take-append zero [] ys h = refl
take-append zero (x ∷ xs) ys h = absurd (omega arith)
take-append (suc n) [] ys h = absurd (omega arith)
take-append (suc n) (x ∷ xs) ys h = ap (λ l. x ∷ l) (take-append n xs ys (omega arith))

pub drop-append {ℓ} : {A : Type ℓ} (n : ℕ) (xs ys : List A) → length xs ≡ n → drop n (xs ++ ys) ≡ ys
drop-append zero [] ys h = refl
drop-append zero (x ∷ xs) ys h = absurd (omega arith)
drop-append (suc n) [] ys h = absurd (omega arith)
drop-append (suc n) (x ∷ xs) ys h = drop-append n xs ys (omega arith)

u64-be64_only : (w : ℕ) → w < u64_mod → u64 (be64 w) ≡ some w
unfolding be64 u64
u64-be64_only w h = ap some (omega arith)

same_key : (a b : BlockId) {v : Bool} → bytes_eq a b ≡ v → bytes_eq (id2key a) (id2key b) ≡ v
unfolding bytes_eq
same_key a b h = h

module _ ⦃c : Crypto⦄ ⦃d : BadgerTxn⦄ ⦃g : Gob⦄ where
  decode-encode : (e : Entry) (buf : Bytes) → g.encode e ≡ ok buf → decode buf ≡ ok e
  unfolding decode
  decode-encode e buf h = rw (g.decode-encode e buf h) refl

  read-eq :
      (id : BlockId) (t u : d.Txn)
      → d.lookup (id2key id) u ≡ d.lookup (id2key id) t
      → read id u ≡ read id t
  unfolding read
  read-eq id t u h = rw h refl

  read-some :
      (id : BlockId) (t : d.Txn) (buf : Bytes)
      → d.lookup (id2key id) t ≡ ok (some buf)
      → read id t ≡ decode buf
  unfolding read
  read-some id t buf h = rw h refl

  read-write :
      (e : Entry) (t u : d.Txn) (id : BlockId)
      → write e t ≡ ok u
      → read id u ≡ (if bytes_eq (block_hash e.block) id then ok e else read id t)
  unfolding write
  read-write e t u id h =
      let (buf, encoded, set) =
        >>=-eq-ok (wrapped "failed to encode block data" (g.encode e)) _ h in
      let law =
        d.lookup-set (id2key (block_hash e.block)) (id2key id) buf t u (wrapped-eq-ok _ _ set) in
      elim (Bool-cases (bytes_eq (block_hash e.block) id)) [
        | inl same ↦ rw same (
            read-some id u buf (law ∙ rw (same_key _ id same) refl)
            ∙ decode-encode e buf (wrapped-eq-ok _ _ encoded))
        | inr other ↦ rw other (read-eq id t u (law ∙ rw (same_key _ id other) refl))
      ]

  read-write_tip :
      (tip : BlockId) (w : ℕ) (t u : d.Txn) (id : BlockId)
      → write_tip tip w t ≡ ok u
      → read id u ≡ read id t
  unfolding write_tip
  read-write_tip tip w t u id h = read-eq id t u (
      d.lookup-set tip_key (id2key id) (tip ++ be64 w) t u (wrapped-eq-ok _ _ h)
      ∙ (unfold bytes_eq in refl))

  read_tip-write_tip :
      (tip : BlockId) (w : ℕ) (t u : d.Txn)
      → length tip ≡ 32
      → w < u64_mod
      → write_tip tip w t ≡ ok u
      → read_tip u ≡ ok (tip, w)
  unfolding write_tip read_tip
  read_tip-write_tip tip w t u hl hw h =
      let law = d.lookup-set tip_key tip_key (tip ++ be64 w) t u (wrapped-eq-ok _ _ h) in
      let at : d.lookup tip_key u ≡ ok (some (tip ++ be64 w)) = law ∙ (unfold bytes_eq in refl) in
      rw (at, take-append 32 tip (be64 w) hl, drop-append 32 tip (be64 w) hl, u64-be64_only w hw)
        refl

  -- The transaction over badger keeps every promise of a transaction on the store: it reads back what
  -- it wrote of a block and of the tip, neither another block nor the tip disturbs a block, and a
  -- commit changes nothing that was read. It does so for every database that returns what was set,
  -- before and after its commit, and every encoding that decodes what it encoded.
  pub badger_tx-StoreLaws : StoreLaws badger_tx
  badger_tx-StoreLaws = record {
    read-write = read-write;
    read-write_tip = read-write_tip;
    read_tip-write_tip = read_tip-write_tip;
    read-commit = λ t u id h. read-eq id t u (d.lookup-commit (id2key id) t u h);
  }
