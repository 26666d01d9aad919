-- ===== src/Wall/Unspent.antt =====
-- The index of unspent outputs (`indexUTRO` of exp/onl/wall/chain/chain.go), which reads the blocks
-- backwards, against the replay of their transfers forwards.
use dd.Base.{
  ◌≡◌, refl, ap, sym, ◌∙◌, ℕ, zero, suc, ◌≤◌, Bool, true, false, ◌||◌, Option, none, some, List, [],
  ◌∷◌, ◌++◌, ok, All, arith, length, if◌then◌else◌,
}
use dd.Base.Bytes.{Bytes, bytes_eq, bytes_eq_iff}
use dd.Base.Map.{Map, get, put, has, del, get-put, has-put, get-del}
use dd.State.Replay.{mem}
use dd.Wall.{TrOut, Tr, WallBlock, ref}
use dd.Wall.Transfer.{Utro}
use dd.Wall.Chain.{walk_blocks, read_wall, mark_spent, put_outputs, index_transfers, index_block}

-- spending: the inputs go out of the set
unfoldable pub spend : List Bytes → Utro → Utro
spend [] utro = utro
spend (input ∷ inputs) utro = spend inputs (del input utro)

-- and receiving: the outputs from place `i` on come in
unfoldable pub receive : Bytes → ℕ → List TrOut → Utro → Utro
receive trid i [] utro = utro
receive trid i (out ∷ outs) utro = receive trid (suc i) outs (put (ref trid i) out utro)

-- the transfers, the oldest one first
unfoldable pub replay_transfers : List Tr → Utro → Utro
unfolding spend receive
replay_transfers [] utro = utro
replay_transfers (tr ∷ trs) utro =
    replay_transfers trs (receive tr.id 0 tr.outputs (spend tr.inputs utro))

-- the output of a transfer under a reference, the last one
unfoldable pub output_at : Bytes → Bytes → ℕ → List TrOut → Option TrOut
output_at k trid i [] = none
output_at k trid i (out ∷ outs) = elim (output_at k trid (suc i) outs) [
  | some found ↦ some found
  | none ↦ if bytes_eq (ref trid i) k then some out else none
]

abbrev pub or_else {ℓ} : {A : Type ℓ} → Option A → Option A → Option A
or_else (some a) o = some a
or_else none o = o

get-receive :
    (k trid : Bytes) (i : ℕ) (outs : List TrOut) (utro : Utro)
    → get k (receive trid i outs utro) ≡ or_else (output_at k trid i outs) (get k utro)
unfolding receive output_at
get-receive k trid i [] utro = refl
get-receive k trid i (out ∷ outs) utro = ground (
  arith,
  get-receive k trid (suc i) outs (put (ref trid i) out utro),
  get-put (ref trid i) k out utro,
)

get-spend :
    (k : Bytes) (inputs : List Bytes) (utro : Utro)
    → get k (spend inputs utro) ≡ (if mem k inputs then none else get k utro)
unfolding spend
get-spend k [] utro = refl
get-spend k (input ∷ inputs) utro =
    ground (arith, get-spend k inputs (del input utro), get-del input k utro)

has-mark_spent :
    (k : Bytes) (inputs : List Bytes) (spent : Map (Unit {0}))
    → has k (mark_spent inputs spent) ≡ (mem k inputs || has k spent)
unfolding mark_spent
has-mark_spent k [] spent = refl
has-mark_spent k (input ∷ inputs) spent =
    ground (arith, has-mark_spent k inputs (put input tt spent), has-put input k tt spent)

get-put_outputs :
    (k : Bytes) (spent : Map (Unit {0})) (trid : Bytes) (i : ℕ) (outs : List TrOut) (utro : Utro)
    → get k (put_outputs spent trid i outs utro)
      ≡ (if has k spent then get k utro else or_else (output_at k trid i outs) (get k utro))
unfolding put_outputs output_at
get-put_outputs k spent trid i [] utro = ground arith
get-put_outputs k spent trid i (out ∷ outs) utro = ground (
  arith,
  bytes_eq_iff (ref trid i) k,
  get-put_outputs k spent trid (suc i) outs utro,
  get-put_outputs k spent trid (suc i) outs (put (ref trid i) out utro),
  get-put (ref trid i) k out utro,
)

-- a reference stands for one output, whichever transfer of the list it is read from
abbrev pub AreDetermined : (Bytes → TrOut) → List Tr → Type 0
AreDetermined content =
    All (λ tr.
      (k : Bytes) (out : TrOut) → output_at k tr.id 0 tr.outputs ≡ some out → out ≡ content k)

-- no transfer names an output of its own as an input
abbrev pub NoneSpendsItself : List Tr → Type 0
NoneSpendsItself =
    All (λ tr. (k : Bytes) → mem k tr.inputs ≡ true → output_at k tr.id 0 tr.outputs ≡ none)

-- what the backward index of the transfers has
abbrev pub indexed : List Tr → Map (Unit {0}) × Utro
indexed trs = index_transfers trs ([], [])

indexed-step :
    (k : Bytes) (tr : Tr) (trs : List Tr)
    → (has k (indexed (tr ∷ trs)).0 ≡ (mem k tr.inputs || has k (indexed trs).0))
      × (get k (indexed (tr ∷ trs)).1 ≡ (
          if mem k tr.inputs || has k (indexed trs).0
          then get k (indexed trs).1
          else or_else (output_at k tr.id 0 tr.outputs) (get k (indexed trs).1)))
unfolding index_transfers
indexed-step k tr trs =
    let (spent, utro) = indexed trs in
    let marked = has-mark_spent k tr.inputs spent in
    (marked, rw (← marked) (get-put_outputs k (mark_spent tr.inputs spent) tr.id 0 tr.outputs utro))

indexed-determined :
    (content : Bytes → TrOut) (k : Bytes) (trs : List Tr) {out : TrOut}
    → AreDetermined content trs
    → get k (indexed trs).1 ≡ some out
    → out ≡ content k
indexed-determined content k [] d h = unfold get index_transfers in cc
indexed-determined content k (tr ∷ trs) {out = out} d h = ground (
  arith,
  indexed-step k tr trs,
  λ (e : get k (indexed trs).1 ≡ some out). indexed-determined content k trs d.1 e,
  λ (e : output_at k tr.id 0 tr.outputs ≡ some out). d.0 k out e,
)

-- an output that is found both in later transfers (`g`) and in an earlier one (`o`) is the same
merge_orders :
    {A : Type 0} (g o u : Option A) (m s : Bool)
    → (m ≡ true → o ≡ none)
    → ((a b : A) → g ≡ some a → o ≡ some b → a ≡ b)
    → or_else g (if s then none else or_else o (if m then none else u))
      ≡ or_else (if m || s then g else or_else o g) (if m || s then none else u)
merge_orders none o u true true h e = refl
merge_orders none o u true false h e = ground arith
merge_orders none o u false true h e = refl
merge_orders none none u false false h e = refl
merge_orders none (some b) u false false h e = refl
merge_orders (some a) o u true s h e = refl
merge_orders (some a) o u false true h e = refl
merge_orders (some a) none u false false h e = refl
merge_orders (some a) (some b) u false false h e = ap some (e a b refl refl)

replay_transfers-step :
    (tr : Tr) (trs : List Tr) (utro : Utro) (k : Bytes)
    → get k (replay_transfers (tr ∷ trs) utro)
      ≡ get k (replay_transfers trs (receive tr.id 0 tr.outputs (spend tr.inputs utro)))
unfolding replay_transfers
replay_transfers-step tr trs utro k = refl

pub replay-indexed :
    (content : Bytes → TrOut) (k : Bytes) (trs : List Tr) (utro : Utro)
    → AreDetermined content trs
    → NoneSpendsItself trs
    → get k (replay_transfers trs utro)
      ≡ or_else (get k (indexed trs).1) (if has k (indexed trs).0 then none else get k utro)
replay-indexed content k [] utro d n = unfold replay_transfers index_transfers get has in refl
replay-indexed content k (tr ∷ trs) utro d n =
    let after = receive tr.id 0 tr.outputs (spend tr.inputs utro) in
    let (spent, kept) = indexed-step k tr trs in
    replay_transfers-step tr trs utro k
    ∙ replay-indexed content k trs after d.1 n.1
    ∙ rw
        (
          get-receive k tr.id 0 tr.outputs (spend tr.inputs utro),
          get-spend k tr.inputs utro,
          spent,
          kept,
        )
        (merge_orders (get k (indexed trs).1) (output_at k tr.id 0 tr.outputs) (get k utro)
          (mem k tr.inputs) (has k (indexed trs).0) (n.0 k)
          λ a b found here. indexed-determined content k trs d.1 found ∙ sym (d.0 k b here))

-- The blocks from `id` back to the genesis `gen`.
pub data Ancestry (gen : Bytes) (blocks : Map WallBlock) : Bytes → List WallBlock → Type 0 where
  origin : {b : WallBlock} → get gen blocks ≡ some b → Ancestry gen blocks gen (b ∷ [])
  after :
      {id : Bytes} {b : WallBlock} {bs : List WallBlock}
      → get id blocks ≡ some b
      → bytes_eq id gen ≡ false
      → Ancestry gen blocks b.vote.prev bs
      → Ancestry gen blocks id (b ∷ bs)

-- their transfers, the oldest one first
abbrev pub history : List WallBlock → List Tr
history [] = []
history (b ∷ bs) = history bs ++ b.transfers

index_transfers-append :
    (xs ys : List Tr) (st : Map (Unit {0}) × Utro)
    → index_transfers (xs ++ ys) st ≡ index_transfers xs (index_transfers ys st)
unfolding index_transfers
index_transfers-append [] ys st = refl
index_transfers-append (tr ∷ trs) ys st =
    ap
      (λ (r : Map (Unit {0}) × Utro).
        (mark_spent tr.inputs r.0, put_outputs (mark_spent tr.inputs r.0) tr.id 0 tr.outputs r.1))
      (index_transfers-append trs ys st)

walk_blocks-genesis :
    (gen : Bytes) (blocks : Map WallBlock) (fuel : ℕ) (b : WallBlock) (st : Map (Unit {0}) × Utro)
    → get gen blocks ≡ some b
    → walk_blocks gen blocks index_block (suc fuel) gen st ≡ (index_transfers b.transfers st, ok tt)
unfolding walk_blocks read_wall
walk_blocks-genesis gen blocks fuel b st at = ground (arith, at, bytes_eq_iff gen gen)

walk_blocks-next :
    (gen : Bytes) (blocks : Map WallBlock) (fuel : ℕ) (id : Bytes) (b : WallBlock)
    (st : Map (Unit {0}) × Utro)
    → get id blocks ≡ some b
    → bytes_eq id gen ≡ false
    → walk_blocks gen blocks index_block (suc fuel) id st
      ≡ walk_blocks gen blocks index_block fuel b.vote.prev (index_transfers b.transfers st)
unfolding walk_blocks read_wall
walk_blocks-next gen blocks fuel id b st at older =
    rw (at, walk_blocks) (rw (older, walk_blocks) refl)

pub walk-history :
    (gen : Bytes) (blocks : Map WallBlock) (fuel : ℕ) (id : Bytes) (bs : List WallBlock)
    (st : Map (Unit {0}) × Utro)
    → Ancestry gen blocks id bs
    → length bs ≤ fuel
    → walk_blocks gen blocks index_block fuel id st ≡ (index_transfers (history bs) st, ok tt)
walk-history gen blocks zero _ _ st (Ancestry.origin at) h = absurd (omega arith)
walk-history gen blocks zero _ _ st (Ancestry.after at older a) h = absurd (omega arith)
walk-history gen blocks (suc fuel) _ _ st (Ancestry.origin {b = b} at) h =
    walk_blocks-genesis gen blocks fuel b st at
walk-history gen blocks (suc fuel) id _ st (Ancestry.after {b = b} {bs = bs} at older a) h =
    walk_blocks-next gen blocks fuel id b st at older
    ∙ walk-history gen blocks fuel b.vote.prev bs (index_transfers b.transfers st) a (omega arith)
    ∙ ap (λ r. (r, ok tt)) (sym (index_transfers-append (history bs) b.transfers st))
