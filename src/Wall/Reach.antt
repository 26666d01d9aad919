-- ===== src/Wall/Reach.antt =====
-- The chains that exp/onl/wall/chain/chain.go can make, and the blocks of a round in them.
use mathlib.Core.Path.{subst}
use dd.Base.{
  ◌≡◌, ap, sym, ◌∙◌, ℕ, ◌+◌, ◌<◌, Bool, true, false, none, some, [], ◌∷◌, ok, arith, length,
  if◌then◌else◌, Bool-cases, Result-cases, inl, inr, ◌⊎◌,
}
use dd.Base.Bytes.{Bytes, u64_mod, bytes_eq, bytes_eq_refl, bytes_eq_sound}
use dd.Base.Inversion.{ok-injective}
use dd.Base.Map.{get, put, has, get-put}
use dd.Externals.{Crypto, Decimals}
use dd.Wall.{WallBlock}
use dd.Wall.Verify.{Params}
use dd.Wall.Chain.{
  MemChain, round_key, or_nil, write_block, check_block, append_wall, new_mem_chain,
}
use dd.Wall.Form.{IsWall, put-either, has-put_here, has-put_kept}
use dd.Wall.Select.{Kept, Divides}
use dd.Wall.Accept.{check_block-IsAccepted}
use dd.Wall.Stored.{append_wall-Kept, write_block-maxr}

-- Every chain that `NewMemChain` creates, after any appends that return no error, of blocks below
-- the last round that a word can count. Tokens have 32 bytes.
pub data IsMade ⦃c : Crypto⦄ ⦃d : Decimals⦄ (p : Params d.Decimal) (gen : WallBlock)
    : MemChain d.Decimal → Type 0 where
  made : length gen.ticket.token ≡ 32 → IsMade p gen (new_mem_chain p gen)
  appended :
      {ch ch' : MemChain d.Decimal} (b : WallBlock)
      → length b.ticket.token ≡ 32
      → b.vote.round + 1 < u64_mod
      → IsMade p gen ch
      → append_wall ch b ≡ ok ch'
      → IsMade p gen ch'

module _ {Decimal : Type 0} where
  -- the voter has a vote in the round
  abbrev pub voted : MemChain Decimal → ℕ → Bytes → Bool
  voted ch nr voter = has voter (or_nil (get (round_key nr) ch.idns))

  -- every block but the genesis is of a voter that is recorded for its round, and of no voter
  -- there are two in a round
  pub record IsFair (ch : MemChain Decimal) : Type 0 where
    pub wall : IsWall ch
    pub room : ch.maxr + 1 < u64_mod
    pub voters :
        (id : Bytes) (a : WallBlock)
        → get id ch.blocks ≡ some a
        → bytes_eq id ch.genesis ≡ false
        → voted ch a.vote.round a.vote.voter ≡ true
    pub once :
        (i j : Bytes) (a b : WallBlock)
        → get i ch.blocks ≡ some a
        → get j ch.blocks ≡ some b
        → bytes_eq i ch.genesis ≡ false
        → bytes_eq j ch.genesis ≡ false
        → a.vote.round ≡ b.vote.round
        → a.vote.voter ≡ b.vote.voter
        → i ≡ j

  stored_either :
      (ch : MemChain Decimal) (b : WallBlock) (id : Bytes) (a : WallBlock)
      → get id (write_block b ch).blocks ≡ some a
      → ((id ≡ b.id) × (a ≡ b)) ⊎ ((bytes_eq b.id id ≡ false) × (get id ch.blocks ≡ some a))
  unfolding write_block
  stored_either ch b id a at = put-either b.id id b ch.blocks at

  -- the voters of a round after a write
  voters_after :
      (ch : MemChain Decimal) (b : WallBlock) (nr : ℕ)
      → get (round_key nr) (write_block b ch).idns ≡ (
          if bytes_eq (round_key b.vote.round) (round_key nr)
          then some (put b.vote.voter tt (or_nil (get (round_key b.vote.round) ch.idns)))
          else get (round_key nr) ch.idns)
  unfolding write_block
  voters_after ch b nr = get-put (round_key b.vote.round) (round_key nr) _ ch.idns

  voted-kept :
      (ch : MemChain Decimal) (b : WallBlock) (nr : ℕ) (voter : Bytes)
      → voted ch nr voter ≡ true
      → voted (write_block b ch) nr voter ≡ true
  voted-kept ch b nr voter h =
      elim (Bool-cases (bytes_eq (round_key b.vote.round) (round_key nr))) [
        | inr other ↦ rw (voters_after ch b nr, other) h
        | inl same ↦
            rw (voters_after ch b nr, same)
              (has-put_kept b.vote.voter voter tt _
                (rw (bytes_eq_sound (round_key b.vote.round) (round_key nr) same) h))
      ]

  voted-here :
      (ch : MemChain Decimal) (b : WallBlock)
      → voted (write_block b ch) b.vote.round b.vote.voter ≡ true
  voted-here ch b =
      rw (voters_after ch b b.vote.round, bytes_eq_refl (round_key b.vote.round))
        (has-put_here b.vote.voter b.vote.voter tt _)

  clash :
      {P : Type 0} (ch : MemChain Decimal) (b a : WallBlock)
      → voted ch a.vote.round a.vote.voter ≡ true
      → b.vote.round ≡ a.vote.round
      → b.vote.voter ≡ a.vote.voter
      → voted ch b.vote.round b.vote.voter ≡ false
      → P
  clash ch b a h round voter first =
      let h' : voted ch b.vote.round b.vote.voter ≡ true = rw (round, voter) h in
      absurd (ground arith)

  -- A block that is new and the first of its voter in its round keeps the votes apart.
  write_block-votes :
      (ch : MemChain Decimal) (b : WallBlock)
      → IsFair ch
      → get b.id ch.blocks ≡ none
      → voted ch b.vote.round b.vote.voter ≡ false
      → ((id : Bytes) (a : WallBlock)
          → get id (write_block b ch).blocks ≡ some a
          → bytes_eq id ch.genesis ≡ false
          → voted (write_block b ch) a.vote.round a.vote.voter ≡ true)
        × ((i j : Bytes) (a e : WallBlock)
            → get i (write_block b ch).blocks ≡ some a
            → get j (write_block b ch).blocks ≡ some e
            → bytes_eq i ch.genesis ≡ false
            → bytes_eq j ch.genesis ≡ false
            → a.vote.round ≡ e.vote.round
            → a.vote.voter ≡ e.vote.voter
            → i ≡ j)
  write_block-votes ch b f new first = (
    λ id a at old. elim (stored_either ch b id a at) [
      | inl (_, own) ↦ rw own (voted-here ch b)
      | inr (_, before) ↦ voted-kept ch b a.vote.round a.vote.voter (f.voters id a before old)
    ],
    λ i j a e ati atj oldi oldj round voter. elim (stored_either ch b i a ati) [
      | inl (herei, owni) ↦ elim (stored_either ch b j e atj) [
        | inl (herej, ownj) ↦ herei ∙ sym herej
        | inr (_, before) ↦
            clash ch b e (f.voters j e before oldj) (ap (λ v. v.vote.round) (sym owni) ∙ round)
              (ap (λ v. v.vote.voter) (sym owni) ∙ voter) first
      ]
      | inr (_, beforei) ↦ elim (stored_either ch b j e atj) [
        | inl (herej, ownj) ↦
            clash ch b a (f.voters i a beforei oldi) (ap (λ v. v.vote.round) (sym ownj) ∙ sym round)
              (ap (λ v. v.vote.voter) (sym ownj) ∙ sym voter) first
        | inr (_, beforej) ↦ f.once i j a e beforei beforej oldi oldj round voter
      ]
    ],
  )

  Kept-IsFair :
      (w out : MemChain Decimal)
      → w.maxr + 1 < u64_mod
      → ((id : Bytes) (a : WallBlock)
          → get id w.blocks ≡ some a
          → bytes_eq id w.genesis ≡ false
          → voted w a.vote.round a.vote.voter ≡ true)
      → ((i j : Bytes) (a e : WallBlock)
          → get i w.blocks ≡ some a
          → get j w.blocks ≡ some e
          → bytes_eq i w.genesis ≡ false
          → bytes_eq j w.genesis ≡ false
          → a.vote.round ≡ e.vote.round
          → a.vote.voter ≡ e.vote.voter
          → i ≡ j)
      → Kept w out
      → IsFair out
  Kept-IsFair w out room voters once kept = record {
    wall = kept.wall;
    room = rw kept.same_maxr room;
    voters = λ id a at old. rw kept.same_idns (voters id a (there id a at) (older id old));
    once = λ i j a e ati atj oldi oldj.
        once i j a e (there i a ati) (there j e atj) (older i oldi) (older j oldj);
  }
    where
      there : (id : Bytes) (a : WallBlock) → get id out.blocks ≡ some a → get id w.blocks ≡ some a
      there id a at = sym (ap (get id) kept.same_blocks) ∙ at

      older : (id : Bytes) → bytes_eq id out.genesis ≡ false → bytes_eq id w.genesis ≡ false
      older id old = sym (ap (bytes_eq id) kept.same_genesis) ∙ old

only_one : {V : Type 0} (k j : Bytes) (v w : V) → get j (put k v []) ≡ some w → (j ≡ k) × (w ≡ v)
only_one k j v w at = elim (put-either k j v [] at) [
  | inl same ↦ same
  | inr (_, nothing) ↦ absurd (unfold get in ground arith)
]

not_older :
    {V P : Type 0} (k j : Bytes) (v w : V) → get j (put k v []) ≡ some w → bytes_eq j k ≡ false → P
not_older k j v w at old =
    let (here, _) = only_one k j v w at in
    let same : bytes_eq j k ≡ true = rw here (bytes_eq_refl k) in absurd (ground arith)

module _ ⦃c : Crypto⦄ ⦃d : Decimals⦄ where
  append_wall-checked :
      (ch ch' : MemChain d.Decimal) (b : WallBlock)
      → append_wall ch b ≡ ok ch'
      → (check_block ch b).1 ≡ ok tt
  append_wall-checked ch ch' b h = elim (Result-cases (check_block ch b).1) [
    | inl (_, passed) ↦ passed
    | inr (e, failed) ↦ absurd (unfold append_wall in ground (arith, failed))
  ]

  new_mem_chain-IsFair :
      (p : Params d.Decimal) (gen : WallBlock)
      → length gen.ticket.token ≡ 32
      → IsFair (new_mem_chain p gen)
  unfolding new_mem_chain
  new_mem_chain-IsFair p gen token = record {
    wall = record {
      genesis_known = (gen, ground (arith, get-put gen.id gen.id gen [], bytes_eq_refl gen.id));
      named = λ id a at. let (here, own) = only_one gen.id id gen a at in rw own (sym here);
      linked = λ id a at old. not_older gen.id id gen a at old;
      weighed = λ id a at.
          let (here, own) = only_one gen.id id gen a at in
          rw (here, own)
            (
              has-put_kept gen.vote.prev gen.id 0 _ (has-put_here gen.id gen.id p.weight_points []),
              has-put_here gen.vote.prev gen.id 0 _,
            );
      tokens = λ id a at. rw (only_one gen.id id gen a at).1 token;
      listed = λ nr ids at.
          rw (only_one (round_key 0) (round_key nr) (gen.id ∷ []) ids at).1
            (has-put_here gen.id gen.id gen [], tt);
    };
    room = omega arith;
    voters = λ id a at old. not_older gen.id id gen a at old;
    once = λ i j a e ati atj oldi oldj round voter. not_older gen.id i gen a ati oldi;
  }

  module _ (divides : Divides d) where
    append_wall-IsFair :
        (ch ch' : MemChain d.Decimal) (b : WallBlock)
        → IsFair ch
        → length b.ticket.token ≡ 32
        → b.vote.round + 1 < u64_mod
        → append_wall ch b ≡ ok ch'
        → IsFair ch'
    unfolding write_block
    append_wall-IsFair ch ch' b f token last h =
        let passed = append_wall-checked ch ch' b h in
        let (_, p, acc) = check_block-IsAccepted ch b passed in
        let (out, ended, kept) = append_wall-Kept divides ch b f.wall token last f.room passed in
        let (voters, once) = write_block-votes ch b f acc.is_new acc.first_vote in
        subst IsFair (ok-injective (sym ended ∙ h))
          (Kept-IsFair (write_block b ch) out (write_block-maxr ch b last f.room) voters once kept)

    pub IsMade-IsFair :
        (p : Params d.Decimal) (gen : WallBlock) (ch : MemChain d.Decimal)
        → IsMade p gen ch
        → IsFair ch
    IsMade-IsFair p gen _ (IsMade.made token) = new_mem_chain-IsFair p gen token
    IsMade-IsFair p gen ch' (IsMade.appended {ch = ch} b token last m h) =
        append_wall-IsFair ch ch' b (IsMade-IsFair p gen ch m) token last h

    -- In every chain that can be made, no voter has two blocks in a round: two blocks but the
    -- genesis that are of one round and one voter are the same. Divisions by other numbers than 0
    -- report no error.
    pub IsMade-votes_once :
        (p : Params d.Decimal) (gen : WallBlock) (ch : MemChain d.Decimal)
        → IsMade p gen ch
        → (i j : Bytes) (a b : WallBlock) → get i ch.blocks ≡ some a
        → get j ch.blocks ≡ some b
        → bytes_eq i ch.genesis ≡ false
        → bytes_eq j ch.genesis ≡ false
        → a.vote.round ≡ b.vote.round
        → a.vote.voter ≡ b.vote.voter
        → i ≡ j
    IsMade-votes_once p gen ch m = (IsMade-IsFair p gen ch m).once
