-- ===== src/Chain/Opens.antt =====
-- A new chain and all that is appended to it (`NewChain` and `Append` of exp/onl/chain.go).
use mathlib.Core.Path.{subst}
use dd.Base.{
  ◌≡◌, refl, ap, sym, ◌∙◌, ℕ, ◌+◌, or_panic, ◌%◌, ◌<◌, some, List, [], ◌∷◌, Result, ok, err, Error,
  ◌>>=◌, >>=-eq-ok, wrapped, arith, Bool-cases, Result-cases, Returns, Returns-eq-ok, inl, inr,
  if◌then◌else◌, block_not_exist,
}
use dd.Base.Bytes.{u64_mod, bytes_eq, bytes_eq_sound, bytes_eq_refl, bytes_eq_iff}
use dd.Base.Int.{pos}
use dd.Externals.{Crypto, Radix}
use dd.Ssi.Client.{Client}
use dd.State.{State, empty_state, update}
use dd.Write.{Write}
use dd.Block.{Block, BlockId, block_hash, append_write}
use dd.Stakes.{new_stakes}
use dd.Store.{Entry, StoreTx, StoreLaws}
use dd.Store.Laws.{wrapped-eq-ok}
use dd.Chain.{Chain}
use dd.Chain.Weigh.{weigh}
use dd.Write.{total_deposit}
use dd.Chain.Genesis.{blank_genesis, genesis_writes, create_genesis, find_genesis, new_chain}
use dd.Chain.Append.{append}
use dd.Chain.Walk.{log_of}
use dd.Chain.Ends.{log_of-ends, Ancestry, IsChained, blocks, block_of}
use dd.Chain.Reads.{weigh-reads}
use dd.Chain.Steady.{weigh-genesis_id}
use dd.Chain.Append.{check}
use dd.Chain.Keeps.{SameBlocks, SameBlocks-IsChained, append-IsChained, blocks-write}

-- what every continuation returns, the whole returns
Returns->>= :
    {V W : Type 0} (P : W → Type 0) (call : Result V) (next : V → Result W)
    → ((v : V) → Returns P (next v))
    → Returns P (call >>= next)
Returns->>= P (ok v) next h = h v
Returns->>= P (err e) next h = tt

module _ ⦃c : Crypto⦄ where
  -- a store with one block is the chain of that block
  one-IsChained :
      (b : Block) (f : BlockId → Result Block)
      → b.round < u64_mod
      → ((id : BlockId) → f id ≡ (if bytes_eq (block_hash b) id then ok b else err block_not_exist))
      → IsChained (block_hash b) f
  one-IsChained b f bound only = record {
    root = (b, only (block_hash b) ∙ rw (bytes_eq_refl (block_hash b)) refl);
    own = λ id a at. elim (Bool-cases (bytes_eq (block_hash b) id)) [
      | inl same ↦
          subst (λ out. Returns (λ (v : Block). (block_hash v ≡ id) × (v.round < u64_mod)) out)
            (rw same at (sym (only id) ∙ at)) (bytes_eq_sound (block_hash b) id same, bound)
      | inr other ↦ cc (rw other at (sym (only id) ∙ at))
    ];
    linked = λ id a at inner. elim (Bool-cases (bytes_eq (block_hash b) id)) [
      | inl same ↦
          absurd
            (ground (arith, bytes_eq_sound (block_hash b) id same, bytes_eq_iff id (block_hash b)))
      | inr other ↦ cc (rw other at (sym (only id) ∙ at))
    ];
  }

module _ ⦃c : Crypto⦄ ⦃r : Radix⦄ where
  -- the writes of the genesis leave its round
  genesis_writes-round :
      (st : State) (fs : List (Client (Unit {0}))) (b : Block) (n : ℕ)
      → Returns (λ (res : Block × ℕ). res.0.round ≡ b.round) (genesis_writes st fs b n)
  unfolding genesis_writes append_write
  genesis_writes-round st [] b n = refl
  genesis_writes-round st (f ∷ fs) b n =
      Returns->>= (λ (res : Block × ℕ). res.0.round ≡ b.round)
        (or_panic (update st f) "nil pointer") _
        (λ w.
          Returns->>= (λ (res : Block × ℕ). res.0.round ≡ b.round)
            (or_panic (total_deposit w) "index out of range") _
            (λ d. genesis_writes-round st fs (append_write b (some w ∷ [])) ((n + d) % u64_mod)))

module _ ⦃c : Crypto⦄ ⦃r : Radix⦄ ⦃x : StoreTx⦄ (laws : StoreLaws x) where
  create_genesis-IsChained :
      (t u : x.T) (genr : ℕ) (fs : List (Client (Unit {0}))) (ch : Chain)
      → genr < u64_mod
      → ((id : BlockId) → x.read id t ≡ err block_not_exist)
      → create_genesis t genr fs ≡ ok (ch, u)
      → IsChained ch.genesis_id (blocks u)
  unfolding create_genesis
  create_genesis-IsChained t u genr fs ch bound empty h =
      let (res, built, h1) = >>=-eq-ok (genesis_writes empty_state fs (blank_genesis genr) 0) _ h in
      let e : Entry = record { block = res.0; stakes = new_stakes res.1; rank = pos 1 } in
      let (t1, written, h2) =
        >>=-eq-ok (wrapped "failed to write genesis block" (x.write e t)) _ h1 in
      let (t2, tip, h3) =
        >>=-eq-ok
          (wrapped "failed to write genesis tip weight" (x.write_tip (block_hash res.0) 0 t1)) _
          h2 in
      let round : res.0.round ≡ genr =
        Returns-eq-ok _ _ (genesis_writes-round empty_state fs (blank_genesis genr) 0) built in
      subst (λ out. Returns (λ (q : Chain × x.T). IsChained q.0.genesis_id (blocks q.1)) out) h3
        (one-IsChained res.0 (blocks t2) (omega (arith, round, bound)) (λ id.
          ap block_of (laws.read-write_tip (block_hash res.0) 0 t1 t2 id (wrapped-eq-ok _ _ tip))
          ∙ blocks-write laws e t t1 id (wrapped-eq-ok _ _ written)
          ∙ ap (λ v. if bytes_eq (block_hash res.0) id then ok res.0 else block_of v) (empty id)))

  -- the genesis that is found in a store without blocks is a new one
  found-IsChained :
      (t u : x.T) (genr : ℕ) (fs : List (Client (Unit {0}))) (ch : Chain)
      → genr < u64_mod
      → ((id : BlockId) → x.read id t ≡ err block_not_exist)
      → x.round genr t ≡ ok []
      → find_genesis t genr fs ≡ ok (ch, u)
      → IsChained ch.genesis_id (blocks u)
  unfolding find_genesis
  found-IsChained t u genr fs ch bound empty blank h =
      create_genesis-IsChained t u genr fs ch bound empty (rw (blank, find_genesis) at h)

  new_chain-IsChained :
      (t u : x.T) (genr : ℕ) (fs : List (Client (Unit {0}))) (ch : Chain)
      → genr < u64_mod
      → ((id : BlockId) → x.read id t ≡ err block_not_exist)
      → x.round genr t ≡ ok []
      → new_chain t genr fs ≡ ok (ch, u)
      → IsChained ch.genesis_id (blocks u)
  unfolding new_chain
  new_chain-IsChained t u genr fs ch bound empty blank h =
      let (found, made, h1) = >>=-eq-ok (find_genesis t genr fs) _ h in
      let (v, weighed, h2) =
        >>=-eq-ok (wrapped "failed to weigh chain blocks" (weigh found.0 found.1 genr).1) _ h1 in
      let (w, done, h3) =
        >>=-eq-ok (wrapped "failed to commit writing of genesis block" (x.commit v)) _ h2 in
      let reads =
        Returns-eq-ok _ _ (weigh-reads laws found.0 found.1 genr) (wrapped-eq-ok _ _ weighed) in
      let kept : SameBlocks laws found.1 w =
        λ j. ap block_of (laws.read-commit v w j (wrapped-eq-ok _ _ done) ∙ reads j) in
      subst (λ out. Returns (λ (q : Chain × x.T). IsChained q.0.genesis_id (blocks q.1)) out) h3
        (subst (λ g. IsChained g (blocks w)) (sym (weigh-genesis_id found.0 found.1 genr))
          (SameBlocks-IsChained laws found.0.genesis_id found.1 w kept
            (found-IsChained t found.1 genr fs found.0 bound empty blank made)))

  pub append-genesis_id :
      (ch : Chain) (t : x.T) (b : Block) → (append ch t b).0.genesis_id ≡ ch.genesis_id
  unfolding append
  append-genesis_id ch t b = elim (Result-cases (check ch t b)) [
    | inr (e, failed) ↦ rw (failed, append) refl
    | inl (acc, passed) ↦ elim (Result-cases (x.write acc.entry t)) [
      | inr (e, failed) ↦ rw (passed, append) (rw (failed, append) refl)
      | inl (t1, written) ↦ elim (Result-cases (weigh ch t1 b.round).1) [
        | inr (e, failed) ↦
            rw (passed, append)
              (rw (written, append) (rw (failed, append) (weigh-genesis_id ch t1 b.round)))
        | inl (t2, weighed) ↦
            rw (passed, append)
              (rw (written, append) (rw (weighed, append) (weigh-genesis_id ch t1 b.round)))
      ]
    ]
  ]

-- The chains, with their stores, that come from a new chain on a store without blocks by appending
-- blocks. The transaction of an `Append` that fails is discarded, but not what it has changed in memory.
pub data Reachable ⦃c : Crypto⦄ ⦃r : Radix⦄ ⦃x : StoreTx⦄ : Chain → x.T → Type 1 where
  opened :
      (t u : x.T) (genr : ℕ) (fs : List (Client (Unit {0}))) (ch : Chain)
      → genr < u64_mod
      → ((id : BlockId) → x.read id t ≡ err block_not_exist)
      → x.round genr t ≡ ok []
      → new_chain t genr fs ≡ ok (ch, u)
      → Reachable ch u
  appended :
      (ch : Chain) (t u : x.T) (b : Block)
      → Reachable ch t
      → b.round < u64_mod
      → (append ch t b).1 ≡ ok u
      → Reachable (append ch t b).0 u
  refused :
      (ch : Chain) (t : x.T) (b : Block) (e : Error)
      → Reachable ch t
      → (append ch t b).1 ≡ err e
      → Reachable (append ch t b).0 t

module _ ⦃c : Crypto⦄ ⦃r : Radix⦄ ⦃x : StoreTx⦄ (laws : StoreLaws x) where
  -- In every chain that `NewChain` creates on a store without blocks, and after any appends,
  -- accepted and refused, of blocks with 64-bit rounds: the genesis is in the store, every block
  -- stands under its hash, and every block but the genesis has its predecessor there, of a lower
  -- round; where the transactions of the store keep their promises.
  pub Reachable-IsChained :
      (ch : Chain) (t : x.T) → Reachable ch t → IsChained ch.genesis_id (blocks t)
  Reachable-IsChained ch t (opened t0 u genr fs ch' bound empty blank h) =
      new_chain-IsChained laws t0 t genr fs ch bound empty blank h
  Reachable-IsChained ch t (appended ch0 t0 u b before bound h) =
      subst (λ g. IsChained g (blocks t)) (sym (append-genesis_id laws ch0 t0 b))
        (append-IsChained laws ch0 t0 t b bound (Reachable-IsChained ch0 t0 before) h)
  Reachable-IsChained ch t (refused ch0 t0 b e before h) =
      subst (λ g. IsChained g (blocks t)) (sym (append-genesis_id laws ch0 t b))
        (Reachable-IsChained ch0 t before)

  -- In every chain that `NewChain` creates on a store without blocks, after any appends of blocks
  -- with 64-bit rounds: from every block of the store the walk of `state` comes to the genesis, and
  -- the log that it has collected is the writes of the ancestry, oldest block first.
  pub Reachable-ends :
      (ch : Chain) (t : x.T) (id : BlockId) (b : Block)
      → Reachable ch t
      → blocks t id ≡ ok b
      → (log : List (List Write)) × (log_of ch.genesis_id id t ≡ ok log)
        × Ancestry ch.genesis_id t id log
  Reachable-ends ch t id b h at = log_of-ends ch.genesis_id t (Reachable-IsChained ch t h) id b at
