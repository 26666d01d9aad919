-- ===== src/Externals.antt =====
-- What exp/onl calls and does not implement: the hash and signature primitives (crypto/sha256 and
-- the copies of ed25519 and of the verifiable random function under vrf/), and the immutable radix
-- tree of hashicorp/go-immutable-radix that stores the rows of the database; and the decimals of
-- cockroachdb/apd, in a context of a fixed precision.
use dd.Base.{ℕ, Bool, Option, none, some, ◌≡◌, if◌then◌else◌}
use dd.Base.Bytes.{Bytes, bytes_eq}

pub record Crypto : Type 0 where
  pub sha256 : Bytes → Bytes
  -- public key, message, signature
  pub ed_verify : Bytes → Bytes → Bytes → Bool
  -- public key, seed, token, proof
  pub vrf_verify : Bytes → Bytes → Bytes → Bytes → Bool

-- A tree is a value: a transaction on it (`Txn`) starts from a copy of its rows.
pub record Radix : Type 1 where
  pub Tree : Type 0
  pub new : Tree
  pub insert : Bytes → Bytes → Tree → Tree
  pub lookup : Bytes → Tree → Option Bytes
  pub lookup-new : (k : Bytes) → lookup k new ≡ none
  pub lookup-insert :
      (k j v : Bytes) (t : Tree)
      → lookup j (insert k v t) ≡ (if bytes_eq k j then some v else lookup j t)

-- An operation that reports an error is none.
pub record Decimals : Type 1 where
  pub Decimal : Type 0
  -- `NewWithBigInt` and `New` with the exponent 0
  pub whole : ℕ → Decimal
  pub sub : Decimal → Decimal → Option Decimal
  pub quo : Decimal → Decimal → Option Decimal
  pub pow : Decimal → Decimal → Option Decimal
  -- `a.Cmp(b) < 0`
  pub less : Decimal → Decimal → Bool
