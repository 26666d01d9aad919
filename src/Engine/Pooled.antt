-- ===== src/Engine/Pooled.antt =====
-- The form of the pool of writes (exp/onl/engine/mempool.go).
use mathlib.Core.Path.{subst}
use dd.Base.{
  Option, none, some, ◌&&◌, if◌then◌else◌, ◌≡◌, refl, ap, sym, ◌∙◌, Bool, true, false, List, [],
  ◌∷◌, ◌++◌, ◌||◌, All, arith,
}
use dd.Base.Bytes.{Bytes, bytes_eq, bytes_eq_iff}
use dd.Base.Map.{Map, get, has, put, get-put}
use dd.Externals.{Crypto, Radix}
use dd.Ssi.{commit}
use dd.Write.{Write, verify_write}
use dd.State.{State, apply}
use dd.State.Replay.{Distinct, nonces, mem}
use dd.Engine.Pool.{Pool, add, pick, pooled}

-- Every write stands under its nonce, and no nonce is there twice.
pub record IsPool (p : Pool) : Type 0 where
  pub keyed : All (λ (e : Bytes × Write). e.0 ≡ e.1.nonce) p
  pub distinct : Distinct (nonces (pooled p))

has-mem :
    (k : Bytes) (p : Pool)
    → All (λ (e : Bytes × Write). e.0 ≡ e.1.nonce) p
    → has k p ≡ mem k (nonces (pooled p))
unfolding has get
has-mem k [] h = refl
has-mem k ((n, w) ∷ p) h = ground (arith, h.0, has-mem k p h.1)

put-absent :
    {V : Type 0} (k : Bytes) (v : V) (m : Map V) → has k m ≡ false → put k v m ≡ m ++ (k, v) ∷ []
unfolding has get put
put-absent k v [] h = refl
put-absent k v ((j, w) ∷ m) h = ground (arith, put-absent k v m)

nonces-snoc :
    (k : Bytes) (w : Write) (p : Pool)
    → nonces (pooled (p ++ (k, w) ∷ [])) ≡ nonces (pooled p) ++ w.nonce ∷ []
nonces-snoc k w [] = refl
nonces-snoc k w ((n, v) ∷ p) = ap (λ ns. v.nonce ∷ ns) (nonces-snoc k w p)

mem-snoc : (m n : Bytes) (ns : List Bytes) → mem m (ns ++ n ∷ []) ≡ (mem m ns || bytes_eq n m)
mem-snoc m n [] = ground arith
mem-snoc m n (k ∷ ns) = ground (arith, mem-snoc m n ns)

Distinct-snoc :
    (n : Bytes) (ns : List Bytes) → Distinct ns → mem n ns ≡ false → Distinct (ns ++ n ∷ [])
Distinct-snoc n [] d h = (refl, tt)
Distinct-snoc n (m ∷ ns) d h = (
  ground (arith, mem-snoc m n ns, d.0, h, bytes_eq_iff m n, bytes_eq_iff n m),
  Distinct-snoc n ns d.1 (ground arith),
)

All-snoc :
    {A : Type 0} (P : A → Type 0) (x : A) (xs : List A) → All P xs → P x → All P (xs ++ x ∷ [])
All-snoc P x [] h p = (p, tt)
All-snoc P x (y ∷ xs) h p = (h.0, All-snoc P x xs h.1 p)

put-IsPool : (w : Write) (p : Pool) → has w.nonce p ≡ false → IsPool p → IsPool (put w.nonce w p)
put-IsPool w p absent h = subst IsPool (sym (put-absent w.nonce w p absent)) (record {
  keyed = All-snoc _ (w.nonce, w) p h.keyed refl;
  distinct = subst Distinct (sym (nonces-snoc w.nonce w p)) (
      Distinct-snoc w.nonce (nonces (pooled p)) h.distinct
        (sym (has-mem w.nonce p h.keyed) ∙ absent));
})

module _ ⦃r : Radix⦄ where
  apply-nonce : (s : State) (w : Write) (dry : Bool) → (apply s w dry).1.nonce ≡ w.nonce
  unfolding apply
  apply-nonce s w dry = ground arith

  -- a pick leaves every write of the pool under its nonce
  pick-keyed :
      {S : Type 0} (f : Write → S → S × Bool) (p : Pool) (s : State) (acc : S)
      → All (λ (e : Bytes × Write). e.0 ≡ e.1.nonce) p
      → All (λ (e : Bytes × Write). e.0 ≡ e.1.nonce) (pick f s p acc).1
  unfolding pick
  pick-keyed f [] s acc h = tt
  pick-keyed f ((n, w) ∷ p) s acc h = ground (
    arith,
    h.0,
    h.1,
    apply-nonce s w true,
    pick-keyed f p (apply s w true).0 acc h.1,
    pick-keyed f p (apply s w true).0 (f (apply s w true).1 acc).0 h.1,
  )

  pick-nonces :
      {S : Type 0} (f : Write → S → S × Bool) (p : Pool) (s : State) (acc : S)
      → nonces (pooled (pick f s p acc).1) ≡ nonces (pooled p)
  unfolding pick
  pick-nonces f [] s acc = refl
  pick-nonces f ((n, w) ∷ p) s acc = ground (
    arith,
    apply-nonce s w true,
    pick-nonces f p (apply s w true).0 acc,
    pick-nonces f p (apply s w true).0 (f (apply s w true).1 acc).0,
  )

module _ ⦃c : Crypto⦄ ⦃r : Radix⦄ where
  add-IsPool : (w : Write) (p : Pool) → IsPool p → IsPool (add w p).0
  unfolding add
  add-IsPool w p h = ground (arith, h, put-IsPool w p)

  pick-IsPool :
      {S : Type 0} (f : Write → S → S × Bool) (s : State) (acc : S) (p : Pool)
      → IsPool p
      → IsPool (pick f s p acc).1
  pick-IsPool f s acc p h = record {
    keyed = pick-keyed f p s acc h.keyed;
    distinct = subst Distinct (sym (pick-nonces f p s acc)) h.distinct;
  }

  -- a call of the pool; what a pick builds up is an `S`
  pub data PoolCall (S : Type 0) : Type 0 where
    adds : (w : Write) → PoolCall S
    picks : (f : Write → S → S × Bool) (s : State) (acc : S) → PoolCall S

  module _ {S : Type 0} where
    unfoldable pub after_calls : List (PoolCall S) → Pool → Pool
    after_calls [] p = p
    after_calls (adds w ∷ calls) p = after_calls calls (add w p).0
    after_calls (picks f s acc ∷ calls) p = after_calls calls (pick f s p acc).1

    -- the first of the added writes with the nonce and a signature that verifies
    unfoldable pub first_valid : Bytes → List (PoolCall S) → Option Write
    first_valid n [] = none
    first_valid n (adds w ∷ calls) =
        let later = first_valid n calls in
        if verify_write w && bytes_eq w.nonce n then some w else later
    first_valid n (picks f s acc ∷ calls) = first_valid n calls

  -- a write without the commit time that a dry run stamps
  abbrev pub unstamped : Write → Write
  unstamped w = record w { txd = record w.txd { time_commit = 0 } }

  abbrev pub unstamped_of : Option Write → Option Write
  unstamped_of none = none
  unstamped_of (some w) = some (unstamped w)

  -- what is there, and else what comes later
  abbrev or_later : Option Write → Option Write → Option Write
  or_later (some w) later = some w
  or_later none later = later

  apply-unstamped : (s : State) (w : Write) (dry : Bool) → unstamped (apply s w dry).1 ≡ unstamped w
  unfolding apply commit
  apply-unstamped s w dry = ground arith

  pick-get :
      {S : Type 0} (f : Write → S → S × Bool) (p : Pool) (s : State) (acc : S) (n : Bytes)
      → unstamped_of (get n (pick f s p acc).1) ≡ unstamped_of (get n p)
  unfolding pick get
  pick-get f [] s acc n = refl
  pick-get f ((m, w) ∷ p) s acc n = ground (
    arith,
    apply-unstamped s w true,
    pick-get f p (apply s w true).0 acc n,
    pick-get f p (apply s w true).0 (f (apply s w true).1 acc).0 n,
  )

  add-get :
      (w : Write) (p : Pool) (n : Bytes)
      → get n (add w p).0 ≡ (elim (get n p) [
        | some v ↦ some v
        | none ↦ if verify_write w && bytes_eq w.nonce n then some w else none
      ])
  unfolding add has
  add-get w p n = ground (arith, get-put w.nonce n w p, bytes_eq_iff w.nonce n)

  after_calls-get :
      {S : Type 0} (calls : List (PoolCall S)) (p : Pool) (n : Bytes)
      → unstamped_of (get n (after_calls calls p))
        ≡ or_later (unstamped_of (get n p)) (unstamped_of (first_valid n calls))
  unfolding after_calls first_valid
  after_calls-get [] p n = ground arith
  after_calls-get (adds w ∷ calls) p n =
      rw (after_calls-get calls (add w p).0 n) (ground (arith, add-get w p n))
  after_calls-get (picks f s acc ∷ calls) p n =
      rw (after_calls-get calls (pick f s p acc).1 n, pick-get f p s acc n) refl

  after_calls-IsPool :
      {S : Type 0} (calls : List (PoolCall S)) (p : Pool) → IsPool p → IsPool (after_calls calls p)
  unfolding after_calls
  after_calls-IsPool [] p h = h
  after_calls-IsPool (adds w ∷ calls) p h = after_calls-IsPool calls (add w p).0 (add-IsPool w p h)
  after_calls-IsPool (picks f s acc ∷ calls) p h =
      after_calls-IsPool calls (pick f s p acc).1 (pick-IsPool f s acc p h)

  -- What a new pool has after any adds and picks, whatever the callbacks of the picks do and wherever
  -- they stop: under a nonce, the first of the added writes with that nonce whose signature
  -- verified, up to the commit time that dry runs set, and nothing if there was none. Every write
  -- stands under its nonce, and no nonce is there twice.
  pub after_calls-first_valid :
      {S : Type 0} (calls : List (PoolCall S))
      → let p = after_calls calls [] in
        IsPool p × ((n : Bytes) → unstamped_of (get n p) ≡ unstamped_of (first_valid n calls))
  after_calls-first_valid calls = (
    after_calls-IsPool calls [] (record { keyed = tt; distinct = tt }),
    λ n. after_calls-get calls [] n ∙ (unfold get in refl),
  )
