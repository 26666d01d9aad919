-- ===== src/Wall/Form.antt =====
-- The form of the chain in memory (`MemChain` of exp/onl/wall/chain/chain.go), and what a block that
-- is written to it leaves of it.
use dd.Base.{
  ◌≡◌, refl, ℕ, ◌<◌, true, false, none, some, List, [], ◌∷◌, ◌++◌, All, arith, length, All-append,
  sym, ◌∙◌, ◌⊎◌, inl, inr, Bool-cases, Option-cases,
}
use dd.Base.Bytes.{Bytes, bytes_eq, bytes_eq_iff}
use dd.Base.Map.{Map, get, put, has, get-put, has-put}
use dd.Base.Inversion.{some-injective}
use dd.Wall.{WallBlock}
use dd.Wall.Chain.{MemChain, round_key, or_nil, write_block}

-- the identifiers are those of stored blocks
abbrev pub AllStored : Map WallBlock → List Bytes → Type 0
AllStored blocks = All (λ id. has id blocks ≡ true)

AllStored-put :
    (id : Bytes) (b : WallBlock) (blocks : Map WallBlock) (ids : List Bytes)
    → AllStored blocks ids
    → AllStored (put id b blocks) ids
AllStored-put id b blocks [] h = tt
AllStored-put id b blocks (j ∷ ids) h =
    (ground (arith, has-put id j b blocks, h.0), AllStored-put id b blocks ids h.1)

module _ {V : Type 0} (k j : Bytes) (v : V) (m : Map V) where
  pub has-get : {w : V} → get k m ≡ some w → has k m ≡ true
  unfolding has
  has-get h = ground arith

  pub has-put_kept : has j m ≡ true → has j (put k v m) ≡ true
  has-put_kept h = ground (arith, has-put k j v m)

  pub has-put_here : has k (put k v m) ≡ true
  has-put_here = ground (arith, has-put k k v m, bytes_eq_iff k k)

  -- what stands in a map after a write is what was written or what stood there
  pub put-either :
      {w : V}
      → get j (put k v m) ≡ some w
      → ((j ≡ k) × (w ≡ v)) ⊎ ((bytes_eq k j ≡ false) × (get j m ≡ some w))
  put-either h = elim (Bool-cases (bytes_eq k j)) [
    | inl same ↦ inl (
      ground (arith, bytes_eq_iff k j),
      sym (some-injective (sym (get-put k j v m ∙ rw same refl) ∙ h)),
    )
    | inr other ↦ inr (other, sym (get-put k j v m ∙ rw other refl) ∙ h)
  ]

  -- what stood there still does, if the write is to a new key
  put-keeps : {w : V} → get k m ≡ none → get j m ≡ some w → get j (put k v m) ≡ some w
  put-keeps new h = ground (arith, get-put k j v m, bytes_eq_iff k j)

module _ {Decimal : Type 0} where
  -- The genesis is there; a block stands under its identifier, is weighed as its predecessor is,
  -- and has a token of 32 bytes; every block but the genesis has a predecessor of a lower round;
  -- and the blocks of the rounds are there.
  pub record IsWall (ch : MemChain Decimal) : Type 0 where
    pub genesis_known : (g : WallBlock) × (get ch.genesis ch.blocks ≡ some g)
    pub named : (id : Bytes) (b : WallBlock) → get id ch.blocks ≡ some b → b.id ≡ id
    pub linked :
        (id : Bytes) (b : WallBlock)
        → get id ch.blocks ≡ some b
        → bytes_eq id ch.genesis ≡ false
        → (p : WallBlock) × (get b.vote.prev ch.blocks ≡ some p) × (p.vote.round < b.vote.round)
    pub weighed :
        (id : Bytes) (b : WallBlock)
        → get id ch.blocks ≡ some b
        → (has id ch.weights ≡ true) × (has b.vote.prev ch.weights ≡ true)
    pub tokens :
        (id : Bytes) (b : WallBlock) → get id ch.blocks ≡ some b → length b.ticket.token ≡ 32
    pub listed :
        (nr : ℕ) (ids : List Bytes)
        → get (round_key nr) ch.rounds ≡ some ids
        → AllStored ch.blocks ids

  AllStored-or_nil :
      (ch : MemChain Decimal)
      → IsWall ch
      → (nr : ℕ) → AllStored ch.blocks (or_nil (get (round_key nr) ch.rounds))
  AllStored-or_nil ch w nr = elim (Option-cases (get (round_key nr) ch.rounds)) [
    | inl absent ↦ rw absent tt
    | inr (ids, at) ↦ rw at (w.listed nr ids at)
  ]

  -- A block that is new, with its predecessor there of a lower round, can be written.
  pub write_block-IsWall :
      (ch : MemChain Decimal) (b p : WallBlock)
      → IsWall ch
      → get b.id ch.blocks ≡ none
      → get b.vote.prev ch.blocks ≡ some p
      → p.vote.round < b.vote.round
      → length b.ticket.token ≡ 32
      → IsWall (write_block b ch)
  unfolding write_block
  write_block-IsWall ch b p w new prev later token = record {
    genesis_known =
        let (g, at) = w.genesis_known in
        (g, ground (arith, get-put b.id ch.genesis b ch.blocks, bytes_eq_iff b.id ch.genesis));
    named =
        λ id a at. ground (arith, get-put b.id id b ch.blocks, bytes_eq_iff b.id id, w.named id a);
    linked = λ id a at old. elim (put-either b.id id b ch.blocks at) [
      | inl (_, own) ↦ rw own (p, put-keeps b.id b.vote.prev b ch.blocks new prev, later)
      | inr (_, before) ↦
          let (q, found, lower) = w.linked id a before old in
          (q, put-keeps b.id a.vote.prev b ch.blocks new found, lower)
    ];
    weighed = λ id a at. elim (put-either b.id id b ch.blocks at) [
      | inl (here, own) ↦
          rw (here, own)
            (
              has-put_here b.id b.id 0 ch.weights,
              has-put_kept b.id b.vote.prev 0 ch.weights (w.weighed b.vote.prev p prev).0,
            )
      | inr (_, before) ↦
          let (own, its_prev) = w.weighed id a before in
          (
            has-put_kept b.id id 0 ch.weights own,
            has-put_kept b.id a.vote.prev 0 ch.weights its_prev,
          )
    ];
    tokens = λ id a at. elim (put-either b.id id b ch.blocks at) [
      | inl (_, own) ↦ rw own token
      | inr (_, before) ↦ w.tokens id a before
    ];
    listed = λ nr ids at.
        elim (put-either (round_key b.vote.round) (round_key nr)
          (or_nil (get (round_key b.vote.round) ch.rounds) ++ b.id ∷ []) ch.rounds at) [
            | inl (_, own) ↦ rw own (
                All-append (λ id. has id (put b.id b ch.blocks) ≡ true) _ (b.id ∷ [])
                  (AllStored-put b.id b ch.blocks _ (AllStored-or_nil ch w b.vote.round))
                  (has-put_here b.id b.id b ch.blocks, tt))
            | inr (_, before) ↦ AllStored-put b.id b ch.blocks ids (w.listed nr ids before)
          ];
  }
