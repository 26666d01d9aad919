-- ===== src/Ssi/Client.antt =====
-- Clients of a transaction (exp/onl/ssi/tx.go): the closures `func(kv *KV)` of exp/onl, which see
-- the database by `Get` and `Set` alone, with a result.
use dd.Base.{Option}
use dd.Base.Bytes.{Bytes}
use dd.Externals.{Crypto, Radix}
use dd.Ssi.{Tx, tx_get, tx_set}

pub data Client (A : Type 0) : Type 0 where
  done : A → Client A
  reads : Bytes → (Option Bytes → Client A) → Client A
  writes : Bytes → Bytes → Client A → Client A

infixl 5 ◌>>=◌ ◌>>◌
abbrev pub ◌>>=◌ : {A B : Type 0} → Client A → (A → Client B) → Client B
done a >>= f = f a
reads k g >>= f = reads k (λ v. g v >>= f)
writes k v p >>= f = writes k v (p >>= f)

abbrev pub ◌>>◌ : {B : Type 0} → Client (Unit {0}) → Client B → Client B
p >> q = p >>= λ _. q

-- `kv.Get(k)`
abbrev pub get_row : Bytes → Client (Option Bytes)
get_row k = reads k done

-- `kv.Set(k, v)`
abbrev pub set_row : Bytes → Bytes → Client (Unit {0})
set_row k v = writes k v (done tt)

module _ ⦃c : Crypto⦄ ⦃r : Radix⦄ {A : Type 0} where
  unfoldable pub run : Client A → Tx → A × Tx
  run (done a) tx = (a, tx)
  run (reads k f) tx = run (f (tx_get k tx).0) (tx_get k tx).1
  run (writes k v p) tx = run p (tx_set k v tx)
