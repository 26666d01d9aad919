-- ===== src/Wall/Stored.antt =====
-- What `Append` of exp/onl/wall/chain/chain.go makes of a chain.
use dd.Base.{◌≡◌, ap, ◌∙◌, ◌+◌, ◌<◌, some, ok, arith, length}
use dd.Base.Bytes.{u64_mod, bytes_eq_iff}
use dd.Base.Map.{get, get-put}
use dd.Externals.{Crypto, Decimals}
use dd.Wall.{WallBlock}
use dd.Wall.Chain.{MemChain, write_block, select_longest_chain, check_block, append_wall}
use dd.Wall.Form.{IsWall, write_block-IsWall}
use dd.Wall.Select.{Kept, Divides, select_longest_chain-Kept}
use dd.Wall.Accept.{check_block-IsAccepted}

module _ {Decimal : Type 0} where
  -- the last round after a write
  pub write_block-maxr :
      (ch : MemChain Decimal) (b : WallBlock)
      → b.vote.round + 1 < u64_mod
      → ch.maxr + 1 < u64_mod
      → (write_block b ch).maxr + 1 < u64_mod
  unfolding write_block
  write_block-maxr ch b last room = ground arith

  write_block-stored :
      (ch : MemChain Decimal) (b : WallBlock) → get b.id (write_block b ch).blocks ≡ some b
  unfolding write_block
  write_block-stored ch b = ground (arith, get-put b.id b.id b ch.blocks, bytes_eq_iff b.id b.id)

module _ ⦃c : Crypto⦄ ⦃d : Decimals⦄ where
  append_wall-step :
      (ch : MemChain d.Decimal) (b : WallBlock)
      → (check_block ch b).0 ≡ b
      → (check_block ch b).1 ≡ ok tt
      → append_wall ch b ≡ select_longest_chain (write_block b ch) b.vote.round
  unfolding append_wall
  append_wall-step ch b same passed =
      rw (passed, append_wall) (ap (λ a. select_longest_chain (write_block a ch) a.vote.round) same)

module _ ⦃c : Crypto⦄ ⦃d : Decimals⦄ (divides : Divides d) where
  -- the selection after a block that passes the checks
  pub append_wall-Kept :
      (ch : MemChain d.Decimal) (b : WallBlock)
      → IsWall ch
      → length b.ticket.token ≡ 32
      → b.vote.round + 1 < u64_mod
      → ch.maxr + 1 < u64_mod
      → (check_block ch b).1 ≡ ok tt
      → (ch' : MemChain d.Decimal) × (append_wall ch b ≡ ok ch') × Kept (write_block b ch) ch'
  append_wall-Kept ch b w token last room h =
      let (same, p, acc) = check_block-IsAccepted ch b h in
      let written = write_block-IsWall ch b p w acc.is_new acc.prev_known acc.later_round token in
      let (ch', selected, kept) =
        select_longest_chain-Kept divides (write_block b ch) b.vote.round written
          (write_block-maxr ch b last room) in
      (ch', append_wall-step ch b same h ∙ selected, kept)

  -- A block that passes the checks is stored: `Append` returns, with no error and no panic, and
  -- leaves a well-formed chain in which the block stands under its identifier. The chain was
  -- well-formed, the token has its 32 bytes, the block and the chain stay below the last round
  -- that a word can count, and divisions by other numbers than 0 report no error.
  pub append_wall-stored :
      (ch : MemChain d.Decimal) (b : WallBlock)
      → IsWall ch
      → length b.ticket.token ≡ 32
      → b.vote.round + 1 < u64_mod
      → ch.maxr + 1 < u64_mod
      → (check_block ch b).1 ≡ ok tt
      → (ch' : MemChain d.Decimal) × (append_wall ch b ≡ ok ch')
        × IsWall ch'
        × (get b.id ch'.blocks ≡ some b)
  append_wall-stored ch b w token last room h =
      let (ch', appended, kept) = append_wall-Kept ch b w token last room h in
      (ch', appended, kept.wall, ap (get b.id) kept.same_blocks ∙ write_block-stored ch b)
