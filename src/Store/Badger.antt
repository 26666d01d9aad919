-- ===== src/Store/Badger.antt =====
-- `BadgerTx` of exp/onl/store.go: the transaction of the store over one of the badger database. The
-- database and the gob encoding of an entry are not part of the repository.
use dd.Base.{
  ◌≡◌, ℕ, Option, none, some, List, [], ◌∷◌, ◌++◌, Result, ok, err, ◌>>=◌, block_not_exist, wrapped,
  or_panic, take, drop, if◌then◌else◌,
}
use dd.Base.Bytes.{Bytes, be64, u64, codes, bytes_eq}
use dd.Base.Int.{ℤ}
use dd.Externals.{Crypto}
use dd.Block.{Block, BlockId, block_hash, id_round, round_bytes}
use dd.Stakes.{Stakes, new_stakes}
use dd.Store.{Entry, StoreTx}
use dd.State.{zeros}

-- A badger transaction. `lookup` is `Get`, with none for `ErrKeyNotFound`; `scan p` are the items
-- that an iterator meets from `Seek(p)` on while it is valid for the prefix, in key order.
pub record BadgerTxn : Type 1 where
  pub Txn : Type 0
  pub lookup : Bytes → Txn → Result (Option Bytes)
  pub set : Bytes → Bytes → Txn → Result Txn
  pub scan : Bytes → Txn → List (Bytes × Result Bytes)
  pub scan_back : Bytes → Bytes → Txn → List (Bytes × Result Bytes)
  pub commit : Txn → Result Txn
  pub lookup-set :
      (k j v : Bytes) (t u : Txn)
      → set k v t ≡ ok u
      → lookup j u ≡ (if bytes_eq k j then ok (some v) else lookup j t)
  pub lookup-commit : (j : Bytes) (t u : Txn) → commit t ≡ ok u → lookup j u ≡ lookup j t

-- Gob: an entry without stakes is decoded without them.
pub record Gob : Type 0 where
  pub encode : Entry → Result Bytes
  pub decode : Bytes → Result (Block × Option Stakes × ℤ)
  pub decode-encode :
      (e : Entry) (d : Bytes) → encode e ≡ ok d → decode d ≡ ok (e.block, some e.stakes, e.rank)

abbrev pub block_bucket : Bytes
block_bucket = codes "b/"

-- `tipKey`
abbrev pub tip_key : Bytes
tip_key = codes "m/tip"

-- `roundPrefix`
abbrev pub round_prefix : ℕ → Bytes
round_prefix nr = block_bucket ++ round_bytes nr

-- `id2key` and `key2id`
abbrev pub id2key : BlockId → Bytes
id2key id = block_bucket ++ id

abbrev pub key2id : Bytes → BlockId
key2id key = take 32 (drop 2 key)

module _ ⦃c : Crypto⦄ ⦃d : BadgerTxn⦄ ⦃g : Gob⦄ where
  -- `BadgerTx.ReadTip`: no tip is the nil tip of weight 0
  unfoldable pub read_tip : d.Txn → Result (BlockId × ℕ)
  read_tip t = do
    it ← wrapped "failed to read tip key" (d.lookup tip_key t)
    elim it [
      | none ↦ ok (zeros 32, 0)
      | some val ↦ (do w ← or_panic (u64 (drop 32 val)) "index out of range"; ok (take 32 val, w))
    ]

  -- `BadgerTx.WriteTip`
  unfoldable pub write_tip : BlockId → ℕ → d.Txn → Result d.Txn
  write_tip tip w t = wrapped "failed to set tip key" (d.set tip_key (tip ++ be64 w) t)

  -- `BadgerTx.Write`
  unfoldable pub write : Entry → d.Txn → Result d.Txn
  write e t = do
    buf ← wrapped "failed to encode block data" (g.encode e)
    wrapped "failed to set key data" (d.set (id2key (block_hash e.block)) buf t)

  -- `decode`
  unfoldable pub decode : Bytes → Result Entry
  decode data' = do
    bb ← wrapped "failed to decode block data" (g.decode data')
    ok (record {
      block = bb.0;
      stakes = elim bb.1 [ none ↦ new_stakes 0 | some stk ↦ stk ];
      rank = bb.2;
    })

  -- `BadgerTx.Read`
  unfoldable pub read : BlockId → d.Txn → Result Entry
  unfolding decode
  read id t = do
    it ← wrapped "failed to get key data" (d.lookup (id2key id) t)
    elim it [ none ↦ err block_not_exist | some v ↦ decode v ]

  -- the loop of `BadgerTx.Round`
  unfoldable pub decode_items : List (Bytes × Result Bytes) → Result (List (BlockId × Entry))
  unfolding decode
  decode_items [] = ok []
  decode_items ((key, value) ∷ items) = do
    v ← wrapped "failed to read block value" value
    e ← wrapped "failed to decode block data" (decode v)
    rest ← decode_items items
    ok ((key2id key, e) ∷ rest)

  -- `BadgerTx.Round`
  unfoldable pub round : ℕ → d.Txn → Result (List (BlockId × Entry))
  unfolding decode_items
  round nr t = decode_items (d.scan (round_prefix nr) t)

  -- the round of the first item, 0 if there is none
  abbrev pub first_round : List (Bytes × Result Bytes) → ℕ
  first_round [] = 0
  first_round ((key, _) ∷ _) = id_round (key2id key)

  -- `BadgerTx.MaxRound`: identifiers begin with the complement of the round, so the first item has
  -- the highest
  unfoldable pub max_round : d.Txn → ℕ
  max_round t = first_round (d.scan block_bucket t)

  -- `BadgerTx.MinRound`: the reverse iterator begins at the bucket with its last byte at 0xff
  unfoldable pub min_round : d.Txn → ℕ
  min_round t = first_round (d.scan_back (b'b' ∷ 0xff ∷ []) block_bucket t)

  -- `BadgerTx` as a `Tx`
  abbrev pub badger_tx : StoreTx
  badger_tx = record {
    T = d.Txn;
    read_tip = read_tip;
    write_tip = write_tip;
    write = write;
    read = read;
    round = round;
    max_round = max_round;
    min_round = min_round;
    commit = d.commit;
  }
