-- ===== src/Tests/Disk.antt =====
-- A badger transaction in memory and an encoding of entries without votes and writes, on which the
-- transaction of the store is run.
use dd.Base.{
  ◌≡◌, refl, ap, sym, ◌∙◌, ℕ, zero, suc, Option, some, List, [], ◌∷◌, ◌++◌, Result, ok, err, failed,
  length, take, drop, arith, if◌then◌else◌,
}
use dd.Base.Bytes.{Bytes, bytes_eq}
use dd.Base.Int.{ℤ, pos, negsuc}
use dd.Base.Map.{Map, get, put, get-put}
use dd.Block.{Block}
use dd.Write.{Write}
use dd.Stakes.{Stakes, new_stakes}
use dd.Store.{Entry, StoreLaws}
use dd.Store.Badger.{BadgerTxn, Gob, badger_tx}
use dd.Store.Laws.{badger_tx-StoreLaws, take-append, drop-append}
use dd.Base.Inversion.{ok-injective}
use dd.Tests.Memory.{crypto}

-- the items under a prefix
items : Bytes → Map Bytes → List (Bytes × Result Bytes)
items p [] = []
items p ((k, v) ∷ m) = if bytes_eq (take (length p) k) p then (k, ok v) ∷ items p m else items p m

instance badger : BadgerTxn
badger = record {
  Txn = Map Bytes;
  lookup = λ k t. ok (get k t);
  set = λ k v t. ok (put k v t);
  scan = items;
  scan_back = λ from p t. [];
  commit = λ t. ok t;
  lookup-set = λ k j v t u h.
      ap (λ (m : Map Bytes). ok (get j m)) (sym (ok-injective h)) ∙ ground (arith, get-put k j v t);
  lookup-commit = λ j t u h. ap (λ (m : Map Bytes). ok (get j m)) (sym (ok-injective h));
}

-- a field with its length in front
field : Bytes → Bytes → Bytes
field b rest = length b ∷ b ++ rest

value_of : Bytes → Bytes
value_of [] = []
value_of (n ∷ d) = take n d

rest_of : Bytes → Bytes
rest_of [] = []
rest_of (n ∷ d) = drop n d

value_of-field : (b rest : Bytes) → value_of (field b rest) ≡ b
unfolding value_of field
value_of-field b rest = take-append (length b) b rest refl

rest_of-field : (b rest : Bytes) → rest_of (field b rest) ≡ rest
unfolding rest_of field
rest_of-field b rest = drop-append (length b) b rest refl

abbrev encode_rank : ℤ → Bytes
encode_rank (pos n) = 0 ∷ n ∷ []
encode_rank (negsuc n) = 1 ∷ n ∷ []

abbrev decode_rank : Bytes → ℤ
decode_rank (zero ∷ n ∷ []) = pos n
decode_rank (suc s ∷ n ∷ []) = negsuc n
decode_rank d = pos 0

abbrev encode_fields : Entry → Bytes
encode_fields e = field (e.block.round ∷ e.block.timestamp ∷ e.stakes.sum ∷ []) (
    field e.block.token (
      field e.block.proof
        (field e.block.pk (field e.block.prev (field e.block.signature (encode_rank e.rank))))))

abbrev nth : ℕ → Bytes → ℕ
nth n [] = 0
nth zero (b ∷ d) = b
nth (suc n) (b ∷ d) = nth n d

decode_fields : Bytes → Block × Option Stakes × ℤ
decode_fields d0 =
    let d1 = rest_of d0 in
    let d2 = rest_of d1 in
    let d3 = rest_of d2 in
    let d4 = rest_of d3 in
    let d5 = rest_of d4 in
    (
      record {
        round = nth 0 (value_of d0);
        timestamp = nth 1 (value_of d0);
        token = value_of d1;
        proof = value_of d2;
        pk = value_of d3;
        prev = value_of d4;
        signature = value_of d5;
        writes = [];
      },
      some (new_stakes (nth 2 (value_of d0))),
      decode_rank (rest_of d5),
    )

encode_entry : Entry → Result Bytes
encode_entry e = elim e.block.writes [
  | _ ∷ _ ↦ err (failed "writes are not encoded")
  | [] ↦ elim e.stakes.votes [
    | _ ∷ _ ↦ err (failed "votes are not encoded")
    | [] ↦ ok (encode_fields e)
  ]
]

decode_rank-encode_rank : (z : ℤ) → decode_rank (encode_rank z) ≡ z
decode_rank-encode_rank (pos n) = refl
decode_rank-encode_rank (negsuc n) = refl

decode_fields-encode_fields :
    (e : Entry)
    → decode_fields (encode_fields e)
      ≡ (record e.block { writes = [] }, some (new_stakes e.stakes.sum), e.rank)
unfolding decode_fields
decode_fields-encode_fields e = simp (value_of-field, rest_of-field, decode_rank-encode_rank)

decode-encode_lists :
    (e : Entry) (ws : List Write) (vs : Map ℕ) (d : Bytes)
    → encode_entry (record e {
      block = record e.block { writes = ws };
      stakes = record e.stakes { votes = vs };
    })
      ≡ ok d
    → ok (decode_fields d)
      ≡ ok (record e.block { writes = ws }, some (record e.stakes { votes = vs }), e.rank)
unfolding encode_entry
decode-encode_lists e (w ∷ ws) vs d h = cc
decode-encode_lists e [] (v ∷ vs) d h = cc
decode-encode_lists e [] [] d h =
    ap (λ l. ok (decode_fields l)) (sym (ok-injective h)) ∙ ap ok (decode_fields-encode_fields e)

instance gob : Gob
gob = record {
  encode = encode_entry;
  decode = λ d. ok (decode_fields d);
  decode-encode = λ e d h. decode-encode_lists e e.block.writes e.stakes.votes d h;
}

badger_tx-StoreLaws_example : StoreLaws badger_tx
badger_tx-StoreLaws_example = badger_tx-StoreLaws
