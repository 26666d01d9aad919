-- ===== src/Write.antt =====
-- Writes (exp/onl/write.go): signed changes of the key space, with their hash and the deposits of
-- stake that they make. Nonces, keys and signatures are byte arrays.
use dd.Base.{
  ℕ, ◌+◌, ◌%◌, Bool, false, Option, none, some, List, [], ◌∷◌, ◌++◌, map, length, take, drop, ltb,
  ◌==◌, not, if◌then◌else◌,
}
use dd.Base.Bytes.{Bytes, u64_mod, bytes_eq, be64, u64, codes}
use dd.Base.Map.{Map, get, put}
use dd.Base.Sort.{sort_slice, bytes_less}
use dd.Externals.{Crypto}
use dd.Ssi.{KeyChangeSet, TxData}
use dd.Kv.{Pk}

pub record Write : Type 0 where
  pub txd : TxData
  pub pk : Pk
  pub nonce : Bytes
  pub signature : Bytes

-- `bytes.Join(l, nil)`, and what is written to a hash in turn
unfoldable pub join : List Bytes → Bytes
join [] = []
join (b ∷ bs) = b ++ join bs

-- the keys of a map
abbrev pub keys_of {ℓ} : {V : Type ℓ} → Map V → List Bytes
keys_of m = map (λ e. e.0) m

-- a write row in the hash: the key hash, the key and the value
unfoldable pub row_bytes : KeyChangeSet → Bytes → Bytes
row_bytes kvs k = elim (get k kvs) [ none ↦ k | some ch ↦ k ++ (ch.k ++ ch.v) ]

-- the bytes that `Write.Hash` feeds to the hash
unfoldable pub write_encoding : Write → Bytes
unfolding join row_bytes
write_encoding w =
    be64 w.txd.time_start
    ++ (be64 w.txd.time_commit
        ++ (w.nonce
            ++ (w.pk
                ++ (join (sort_slice bytes_less (keys_of w.txd.read_rows))
                    ++ join (
                        map (row_bytes w.txd.write_rows)
                          (sort_slice bytes_less (keys_of w.txd.write_rows)))))))

-- The loop of `StakeDeposits`. A stake row with a value of fewer than 8 bytes makes the Go program
-- panic: none.
unfoldable pub deposits_from : KeyChangeSet → Map ℕ → Option (Map ℕ)
deposits_from [] deposits = some deposits
deposits_from ((_, ch) ∷ rows) deposits =
    let skip = deposits_from rows deposits in
    if not (length ch.k == 32 + length (codes "_stake"))
    then skip
    else if bytes_eq (drop 32 ch.k) (codes "_stake")
    then elim (u64 ch.v) [
      | none ↦ none
      | some n ↦ deposits_from rows (put (take 32 ch.k) n deposits)
    ]
    else skip

-- `Write.StakeDeposits`
unfoldable pub stake_deposits : Write → Option (Map ℕ)
unfolding deposits_from
stake_deposits w = deposits_from w.txd.write_rows []

-- the sum of the deposits, as a `uint64`
unfoldable pub sum_of : Map ℕ → ℕ
sum_of [] = 0
sum_of ((_, n) ∷ m) = (n + sum_of m) % u64_mod

-- `Write.TotalDeposit`
unfoldable pub total_deposit : Write → Option ℕ
total_deposit w = elim (stake_deposits w) [ none ↦ none | some m ↦ some (sum_of m) ]

-- `Write.HasDepositFor`
unfoldable pub has_deposit_for : Write → Pk → Option Bool
has_deposit_for w pk = elim (stake_deposits w) [
  | none ↦ none
  | some m ↦ some (elim (get pk m) [ none ↦ false | some deposit ↦ ltb 0 deposit ])
]

module _ ⦃c : Crypto⦄ where
  -- `Write.Hash`
  unfoldable pub write_hash : Write → Bytes
  write_hash w = c.sha256 (write_encoding w)

  -- `Write.VerifySignature`
  unfoldable pub verify_write : Write → Bool
  verify_write w = c.ed_verify w.pk (write_hash w) w.signature
