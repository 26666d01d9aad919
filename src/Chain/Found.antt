-- ===== src/Chain/Found.antt =====
-- What the walk of `Append` finds (exp/onl/chain.go), and what walks keep.
use mathlib.Core.Path.{subst}
use dd.Base.{
  Returns, ◌≡◌, refl, ap, sym, ◌∙◌, ℕ, zero, suc, Bool, true, false, Option, some, Result, ok,
  >>=-eq-ok, Bool-cases, Result-cases, inl, inr, if◌then◌else◌,
}
use dd.Base.Bytes.{bytes_eq, bytes_eq_sound}
use dd.Block.{Block, BlockId}
use dd.Store.{Entry, StoreTx}
use dd.Chain.Walk.{walk}
use dd.Chain.Append.{Found, find, any_deposit}
use dd.Base.Inversion.{some-injective}

module _ ⦃x : StoreTx⦄ where
  -- what every call of the callback keeps, a walk keeps
  pub walk-keeps :
      {S : Type 0} (P : S × x.T → Type 0) (gen : BlockId)
      (f : BlockId → Entry → S × x.T → Result (S × x.T))
      → ((id : BlockId) (e : Entry) (st st' : S × x.T)
          → x.read id st.1 ≡ ok e
          → P st
          → f id e st ≡ ok st'
          → P st')
      → (fuel : ℕ) (id : BlockId) (st st' : S × x.T) → P st
      → walk gen f fuel id st ≡ ok st'
      → P st'
  unfolding walk
  walk-keeps P gen f keep zero id st st' p h = cc
  walk-keeps {S} P gen f keep (suc fuel) id st st' p h = elim (Result-cases (x.read id st.1)) [
    | inr (e, failed) ↦ cc (failed, rw (failed, walk) at h)
    | inl (e, at) ↦ elim (Result-cases (f id e st)) [
      | inr (e', failed) ↦ cc (rw (failed, walk) at (rw (at, walk) at h))
      | inl (mid, called) ↦
          let h1 = rw (called, walk) at (rw (at, walk) at h) in
          elim (Bool-cases (bytes_eq id gen)) [
            | inl last ↦
                let h2 : ok mid ≡ ok st' = rw (last, walk) at h1 in
                subst (λ res. Returns P res) h2 (keep id e st mid at p called)
            | inr more ↦
                walk-keeps P gen f keep fuel e.block.prev mid st' (keep id e st mid at p called)
                  (rw (more, walk) at h1)
          ]
    ]
  ]

  -- what the walk of `Append` has found is of the store: the block before `b`, and a block with a
  -- deposit for the proposer
  pub record IsFound (b : Block) (t : x.T) (st : Found × x.T) : Type 0 where
    pub same : st.1 ≡ t
    pub prev : (p : Entry) → st.0.prev ≡ some p → x.read b.prev t ≡ ok p
    pub stable :
        (s : Block)
        → st.0.stable ≡ some s
        → ((id : BlockId) × (e : Entry) × (x.read id t ≡ ok e) × (e.block ≡ s))
          × (any_deposit b.pk s.writes ≡ ok true)

  -- a choice that gives a value gave one of its two sides
  chosen {ℓ} :
      {A : Type ℓ} (P : A → Type 0) (d : Bool) (a : A) (before : Option A)
      → (d ≡ true → P a)
      → ((v : A) → before ≡ some v → P v)
      → (v : A) → (if d then some a else before) ≡ some v
      → P v
  chosen P true a before hit miss v k = subst P (some-injective k) (hit refl)
  chosen P false a before hit miss v k = miss v k

  pub find-IsFound :
      (b : Block) (t : x.T) (id : BlockId) (e : Entry) (st st' : Found × x.T)
      → x.read id st.1 ≡ ok e
      → IsFound b t st
      → find b id e st ≡ ok st'
      → IsFound b t st'
  unfolding find
  find-IsFound b t id e st st' at p h =
      let (d, deposit, h1) = >>=-eq-ok (any_deposit b.pk e.block.writes) _ h in
      let at_t : x.read id t ≡ ok e = rw p.same at at in
      subst (λ res. Returns (IsFound b t) res) h1
        (record {
          same = p.same;
          prev =
              chosen (λ (v : Entry). x.read b.prev t ≡ ok v) (bytes_eq b.prev id) e st.0.prev
                (λ same. subst (λ i. x.read i t ≡ ok e) (sym (bytes_eq_sound b.prev id same)) at_t)
                p.prev;
          stable =
              chosen
                (λ (s : Block).
                  ((i : BlockId) × (v : Entry) × (x.read i t ≡ ok v) × (v.block ≡ s))
                  × (any_deposit b.pk s.writes ≡ ok true))
                d e.block st.0.stable (λ has. ((id, e, at_t, refl), deposit ∙ ap ok has)) p.stable;
        })
