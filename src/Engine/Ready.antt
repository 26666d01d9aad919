-- ===== src/Engine/Ready.antt =====
-- When a message of the out-of-order buffer is due (exp/onl/engine/ooo.go).
use mathlib.Core.Path.{subst}
use dd.Base.{
  ◌≡◌, refl, sym, ℕ, Bool, true, false, not, Option, none, some, List, [], ◌∷◌, ◌++◌, ltb,
  if◌then◌else◌, ◌&&◌, ◌||◌, arith, All,
}
use dd.Base.Bytes.{Bytes, bytes_eq, bytes_eq_iff}
use dd.Base.Map.{get, put, get-put}
use dd.Block.{BlockId}
use dd.Chain.Walk.{nil_id}
use dd.Engine.{Msg, dependency}
use dd.Engine.Ooo.{
  Ooo, Waiting, round_key, await, handle_on, handle, handle_all, deferred, resolve, resolve_round,
}

-- the key is resolved
abbrev pub is_done : Bytes → Waiting → Bool
is_done key w = elim (get key w) [ none ↦ false | some v ↦ elim v [ none ↦ true | some _ ↦ false ] ]

-- both dependencies are resolved, or not there
abbrev pub is_due : Ooo → BlockId × ℕ → Bool
is_due o (bdep, rdep) =
    (bytes_eq bdep nil_id || is_done bdep o.on_blocks)
    && (not (ltb 0 rdep) || is_done (round_key rdep) o.on_rounds)

-- the dependencies of the message are resolved
abbrev pub IsReady : Ooo → Msg → Type 0
IsReady o m = is_due o (dependency m) ≡ true

is_done-put-none :
    (k j : Bytes) (w : Waiting) → is_done j w ≡ true → is_done j (put k none w) ≡ true
is_done-put-none k j w h = ground (arith, get-put {V = Option (List Msg)} k j none w)

await-is_done :
    (k j : Bytes) (m : Msg) (w : Waiting) → is_done j w ≡ true → is_done j (await k m w).1 ≡ true
unfolding await
await-is_done k j m w h = ground (arith, get-put k j (some (m ∷ [])) w, bytes_eq_iff k j)

await-done : (k : Bytes) (m : Msg) (w : Waiting) → (await k m w).0 ≡ is_done k w
unfolding await
await-done k m w = ground arith

handle_on-is_due_kept :
    (o : Ooo) (m : Msg) (d e : BlockId × ℕ)
    → is_due o e ≡ true
    → is_due (handle_on o m d).0 e ≡ true
unfolding handle_on
handle_on-is_due_kept o m d e h = ground (
  arith,
  await-is_done d.0 e.0 m o.on_blocks,
  await-is_done (round_key d.1) (round_key e.1) m o.on_rounds,
)

handle_on-is_due :
    (o : Ooo) (m : Msg) (d : BlockId × ℕ)
    → (handle_on o m d).1 ≡ (if is_due o d then m ∷ [] else [])
unfolding handle_on
handle_on-is_due o m d =
    ground (arith, await-done d.0 m o.on_blocks, await-done (round_key d.1) m o.on_rounds)

All-append : {A : Type 0} (P : A → Type 0) (xs ys : List A) → All P xs → All P ys → All P (xs ++ ys)
All-append P [] ys h k = k
All-append P (x ∷ xs) ys h k = (h.0, All-append P xs ys h.1 k)

-- one message is due, if it is passed on
All-passed :
    (o : Ooo) (m : Msg) (due : Bool)
    → (due ≡ true → IsReady o m)
    → All (IsReady o) (if due then m ∷ [] else [])
All-passed o m true h = (h refl, tt)
All-passed o m false h = tt

handle_all-keeps :
    (ms : List Msg) (o : Ooo) (e : BlockId × ℕ)
    → is_due o e ≡ true
    → is_due (handle_all o ms).0 e ≡ true
unfolding handle_all handle
handle_all-keeps [] o e h = h
handle_all-keeps (m ∷ ms) o e h =
    handle_all-keeps ms (handle o m).0 e (handle_on-is_due_kept o m (dependency m) e h)

handle-IsReady :
    (o : Ooo) (m : Msg) (o' : Ooo)
    → ((e : BlockId × ℕ) → is_due o e ≡ true → is_due o' e ≡ true)
    → All (IsReady o') (handle o m).1
unfolding handle
handle-IsReady o m o' kept =
    subst (All (IsReady o')) (sym (handle_on-is_due o m (dependency m)))
      (All-passed o' m (is_due o (dependency m)) (kept (dependency m)))

handle_all-IsReady :
    (ms : List Msg) (o : Ooo) → All (IsReady (handle_all o ms).0) (handle_all o ms).1
unfolding handle_all
handle_all-IsReady [] o = tt
handle_all-IsReady (m ∷ ms) o =
    All-append (IsReady (handle_all (handle o m).0 ms).0) (handle o m).1 _
      (handle-IsReady o m (handle_all (handle o m).0 ms).0 (λ e h.
        handle_all-keeps ms (handle o m).0 e
          (unfold handle in handle_on-is_due_kept o m (dependency m) e h)))
      (handle_all-IsReady ms (handle o m).0)

-- Whatever the buffer holds: what `Handle`, `Resolve` and `ResolveRound` pass on to the handler
-- has its block and its round resolved in the buffer that they leave.
pub resolve-IsReady :
    (o : Ooo) (m : Msg) (id : BlockId) (nr : ℕ)
    → All (IsReady (handle o m).0) (handle o m).1
      × All (IsReady (resolve id o).0) (resolve id o).1
      × All (IsReady (resolve_round nr o).0) (resolve_round nr o).1
unfolding resolve resolve_round
resolve-IsReady o m id nr = (
  handle-IsReady o m (handle o m).0
      (λ e h. unfold handle in handle_on-is_due_kept o m (dependency m) e h),
  handle_all-IsReady (deferred id o.on_blocks) (record o { on_blocks = put id none o.on_blocks }),
  handle_all-IsReady (deferred (round_key nr) o.on_rounds)
      (record o { on_rounds = put (round_key nr) none o.on_rounds }),
)

-- What is due stays due: no later message and no later resolution makes a message wait whose
-- dependencies were resolved.
pub resolve-keeps_due :
    (o : Ooo) (m : Msg) (id : BlockId) (nr : ℕ) (e : BlockId × ℕ)
    → is_due o e ≡ true
    → (is_due (handle o m).0 e ≡ true)
      × (is_due (resolve id o).0 e ≡ true)
      × (is_due (resolve_round nr o).0 e ≡ true)
unfolding handle resolve resolve_round
resolve-keeps_due o m id nr e h = (
  handle_on-is_due_kept o m (dependency m) e h,
  handle_all-keeps (deferred id o.on_blocks) _ e
      (ground (arith, is_done-put-none id e.0 o.on_blocks)),
  handle_all-keeps (deferred (round_key nr) o.on_rounds) _ e
      (ground (arith, is_done-put-none (round_key nr) (round_key e.1) o.on_rounds)),
)
