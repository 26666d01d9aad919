-- ===== src/Engine/Order.antt =====
-- When the out-of-order buffer passes a message on (exp/onl/engine/ooo.go).
use mathlib.Core.List.{append-nil}
use dd.Base.{◌≡◌, refl, ap, ◌∙◌, ℕ, true, false, Option, none, some, List, [], ◌∷◌, ◌++◌, ltb}
use dd.Base.Bytes.{Bytes, bytes_eq, bytes_eq_refl}
use dd.Base.Map.{Map, get, put, get-put}
use dd.Block.{BlockId}
use dd.Chain.Walk.{nil_id}
use dd.Engine.{Msg, dependency}
use dd.Engine.Ooo.{
  Ooo, Waiting, round_key, await, handle_on, handle, handle_all, deferred, resolve, resolve_round,
}

await-new :
    (key : Bytes) (m : Msg) (w : Waiting)
    → get key w ≡ none
    → await key m w ≡ (false, put key (some (m ∷ [])) w)
unfolding await
await-new key m w h = rw (h, await) refl

-- a key that is there stays as it is
await-there :
    (key : Bytes) (m : Msg) (v : Option (List Msg)) (w : Waiting)
    → get key w ≡ some v
    → await key m w ≡ (elim v [ none ↦ true | some _ ↦ false ], w)
unfolding await
await-there key m none w h = rw (h, await) refl
await-there key m (some ms) w h = rw (h, await) refl

deferred-there :
    (key : Bytes) (v : Option (List Msg)) (w : Waiting)
    → get key w ≡ some v
    → deferred key w ≡ elim v [ none ↦ [] | some ms ↦ ms ]
unfolding deferred
deferred-there key none w h = rw (h, deferred) refl
deferred-there key (some ms) w h = rw (h, deferred) refl

module _ (m : Msg) (id : BlockId) (nr : ℕ) (dep : dependency m ≡ (id, nr))
    (real : bytes_eq id nil_id ≡ false) (later : ltb 0 nr ≡ true) (blocks rounds : Waiting) where
  abbrev buffer : Ooo
  buffer = record { on_blocks = blocks; on_rounds = rounds }

  -- the first message with its dependencies is kept
  handle-new :
      get id blocks ≡ none
      → get (round_key nr) rounds ≡ none
      → handle buffer m ≡ (
        record {
          on_blocks = put id (some (m ∷ [])) blocks;
          on_rounds = put (round_key nr) (some (m ∷ [])) rounds;
        },
        [],
      )
  unfolding handle handle_on
  handle-new hb hr =
      ap (handle_on buffer m) dep
      ∙ rw (real, later, await-new id m blocks hb, await-new (round_key nr) m rounds hr) refl

  -- a message is not kept again, nor passed on, while its round is waited for
  handle-held :
      (v : Option (List Msg)) (ms : List Msg)
      → get id blocks ≡ some v
      → get (round_key nr) rounds ≡ some (some ms)
      → handle buffer m ≡ (buffer, [])
  unfolding handle handle_on
  handle-held none ms hb hr =
      ap (handle_on buffer m) dep
      ∙ rw
          (
            real,
            later,
            await-there id m none blocks hb,
            await-there (round_key nr) m (some ms) rounds hr,
          )
          refl
  handle-held (some ks) ms hb hr =
      ap (handle_on buffer m) dep
      ∙ rw
          (
            real,
            later,
            await-there id m (some ks) blocks hb,
            await-there (round_key nr) m (some ms) rounds hr,
          )
          refl

  handle-ready :
      get id blocks ≡ some none
      → get (round_key nr) rounds ≡ some none
      → handle buffer m ≡ (buffer, m ∷ [])
  unfolding handle handle_on
  handle-ready hb hr =
      ap (handle_on buffer m) dep
      ∙ rw
          (
            real,
            later,
            await-there id m none blocks hb,
            await-there (round_key nr) m none rounds hr,
          )
          refl

module _ (o : Ooo) (a b : Msg) (id : BlockId) (nr : ℕ) (da : dependency a ≡ (id, nr))
    (db : dependency b ≡ (id, nr)) (real : bytes_eq id nil_id ≡ false) (later : ltb 0 nr ≡ true)
    (new_block : get id o.on_blocks ≡ none)
    (new_round : get (round_key nr) o.on_rounds ≡ none) where
  -- the buffer that waits with `a` on both
  abbrev waits : Ooo
  waits = record {
    on_blocks = put id (some (a ∷ [])) o.on_blocks;
    on_rounds = put (round_key nr) (some (a ∷ [])) o.on_rounds;
  }

  get-put_self : {V : Type 0} (k : Bytes) (v : V) (m : Map V) → get k (put k v m) ≡ some v
  get-put_self k v m = get-put k k v m ∙ rw (bytes_eq_refl k) refl

  handle-second : handle waits b ≡ (waits, [])
  handle-second =
      handle-held b id nr db real later waits.on_blocks waits.on_rounds (some (a ∷ [])) (a ∷ [])
        (get-put_self id _ o.on_blocks) (get-put_self (round_key nr) _ o.on_rounds)

  handle_all-single :
      (p q : Ooo) (m : Msg) (ms : List Msg) → handle p m ≡ (q, ms) → handle_all p (m ∷ []) ≡ (q, ms)
  unfolding handle_all
  handle_all-single p q m ms h =
      ap (λ (r : Ooo × List Msg). (r.0, r.1 ++ [])) h ∙ ap (λ l. (q, l)) (append-nil ms)

  abbrev block_done : Ooo
  block_done = record waits { on_blocks = put id none waits.on_blocks }

  resolve-waits : resolve id waits ≡ (block_done, [])
  unfolding resolve
  resolve-waits =
      ap (handle_all block_done)
        (deferred-there id (some (a ∷ [])) waits.on_blocks (get-put_self id _ o.on_blocks))
      ∙ (handle_all-single block_done block_done a [] (
          handle-held a id nr da real later block_done.on_blocks block_done.on_rounds none (a ∷ [])
            (get-put_self id none waits.on_blocks) (get-put_self (round_key nr) _ o.on_rounds)))

  abbrev both_done : Ooo
  both_done = record block_done { on_rounds = put (round_key nr) none block_done.on_rounds }

  resolve_round-block_done :
      ((resolve_round nr block_done).0 ≡ both_done) × ((resolve_round nr block_done).1 ≡ a ∷ [])
  unfolding resolve_round
  resolve_round-block_done =
      let run : handle_all both_done (deferred (round_key nr) block_done.on_rounds)
          ≡ (both_done, a ∷ []) =
        ap (handle_all both_done) (
          deferred-there (round_key nr) (some (a ∷ [])) block_done.on_rounds
            (get-put_self (round_key nr) _ o.on_rounds))
        ∙ (handle_all-single both_done both_done a (a ∷ []) (
            handle-ready a id nr da real later both_done.on_blocks both_done.on_rounds
              (get-put_self id none waits.on_blocks)
              (get-put_self (round_key nr) none block_done.on_rounds))) in
      (ap (λ q. q.0) run, ap (λ q. q.1) run)

  -- Two messages that depend on the same block, which is not nil, and the same round, above 0, and
  -- that arrive before either is resolved, when no message waits for them yet:
  -- the first waits for both and is passed on when the block and then the round are resolved,
  -- once; the second is never passed on, since only one message is kept under a key.
  pub handle-drops_second :
      let (o1, h1) = handle o a in
      let (o2, h2) = handle o1 b in
      let (o3, h3) = resolve id o2 in
      let (o4, h4, s) = resolve_round nr o3 in
      (h1 ++ h2 ++ h3 ++ h4 ≡ a ∷ [])
      × (deferred id o4.on_blocks ≡ [])
      × (deferred (round_key nr) o4.on_rounds ≡ [])
  handle-drops_second =
      let kept = handle-new a id nr da real later o.on_blocks o.on_rounds new_block new_round in
      rw
        (kept, handle-second, resolve-waits, resolve_round-block_done.0, resolve_round-block_done.1)
        (
          refl,
          deferred-there id none both_done.on_blocks (get-put_self id none waits.on_blocks),
          deferred-there (round_key nr) none both_done.on_rounds
              (get-put_self (round_key nr) none block_done.on_rounds),
        )
