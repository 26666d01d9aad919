-- ===== src/Slot/Ballot/Voters.antt =====
-- The voters of the proposals in a ballot (exp/slot/round.go), as the keys of maps.
use mathlib.Core.Path.{subst}
use dd.Base.{
  ◌≡◌, refl, ap, sym, ◌∙◌, ◌⊎◌, inl, inr, suc, ◌≤◌, Bool, true, false, Option, some, List, [], ◌∷◌,
  All, In, arith, length, if◌then◌else◌, Bool-cases,
}
use dd.Base.Bytes.{Bytes, bytes_eq, bytes_eq_iff, bytes_eq_refl, bytes_eq_sound}
use dd.Base.Map.{Map, get, has, put, get-put, has-put}
use dd.Write.{keys_of}
use dd.State.Replay.{Distinct, mem}
use dd.Slot.{Proposal, or_empty}
use dd.Slot.Ballot.{Ballot}

-- the map of the voters of a proposal
abbrev pub voters_of : Ballot → Bytes → Map (Unit {0})
voters_of b id = or_empty (get id b.votes)

pub All-map :
    {A : Type 0} (P Q : A → Type 0) → ((a : A) → P a → Q a) → (xs : List A) → All P xs → All Q xs
All-map P Q f [] h = tt
All-map P Q f (x ∷ xs) h = (f x h.0, All-map P Q f xs h.1)

pub All-In : (P : Proposal → Type 0) (xs : List Proposal) (x : Proposal) → All P xs → In x xs → P x
All-In P [] x h i = elim i [ ]
All-In P (y ∷ xs) x h (inl e) = subst P e h.0
All-In P (y ∷ xs) x h (inr i) = All-In P xs x h.1 i

or_empty-if :
    {V : Type 0} (t : Bool) (m : Map V) (o : Option (Map V))
    → or_empty (if t then some m else o) ≡ (if t then m else or_empty o)
or_empty-if true m o = refl
or_empty-if false m o = refl

module _ {V : Type 0} where
  length-put : (k : Bytes) (v : V) (m : Map V) → length m ≤ length (put k v m)
  unfolding put
  length-put k v [] = omega arith
  length-put k v ((j, w) ∷ m) = ground (arith, length-put k v m)

  pub length-keys : (m : Map V) → length (keys_of m) ≡ length m
  length-keys [] = refl
  length-keys ((j, w) ∷ m) = ap suc (length-keys m)

  mem-keys : (k : Bytes) (m : Map V) → mem k (keys_of m) ≡ has k m
  unfolding has get
  mem-keys k [] = refl
  mem-keys k ((j, w) ∷ m) = ground (arith, mem-keys k m)

  put-Distinct :
      (k : Bytes) (v : V) (m : Map V) → Distinct (keys_of m) → Distinct (keys_of (put k v m))
  unfolding put
  put-Distinct k v [] d = (refl, tt)
  put-Distinct k v ((j, w) ∷ m) d = ground (
    arith,
    d.0,
    d.1,
    put-Distinct k v m d.1,
    mem-keys j (put k v m),
    mem-keys j m,
    has-put k j v m,
    bytes_eq_iff j k,
    bytes_eq_iff k j,
  )

  has-later : (k j : Bytes) (w : V) (m : Map V) → has k m ≡ true → has k ((j, w) ∷ m) ≡ true
  unfolding has get
  has-later k j w m h = ground arith

  pub All-has : (m : Map V) → All (λ k. has k m ≡ true) (keys_of m)
  All-has [] = tt
  All-has ((j, w) ∷ m) = (
    unfold has get in ground (arith, bytes_eq_refl j),
    All-map _ _ (λ k h. has-later k j w m h) (keys_of m) (All-has m),
  )

-- the voters of a proposal after a vote for `hid` by `k`
after_vote :
    (b b' : Ballot) (hid id k : Bytes)
    → b'.votes ≡ put hid (put k tt (voters_of b hid)) b.votes
    → voters_of b' id ≡ (if bytes_eq hid id then put k tt (voters_of b hid) else voters_of b id)
after_vote b b' hid id k e =
    rw (e, get-put hid id (put k tt (voters_of b hid)) b.votes)
      (or_empty-if (bytes_eq hid id) (put k tt (voters_of b hid)) (get id b.votes))

module _ (b b' : Ballot) (hid k : Bytes)
    (e : b'.votes ≡ put hid (put k tt (voters_of b hid)) b.votes) where
  pub after-longer : (id : Bytes) → length (voters_of b id) ≤ length (voters_of b' id)
  after-longer id = elim (Bool-cases (bytes_eq hid id)) [
    | inr other ↦ rw (after_vote b b' hid id k e, other) (omega arith)
    | inl same ↦
        rw (after_vote b b' hid id k e, same, ← (bytes_eq_sound hid id same))
          (length-put k tt (voters_of b hid))
  ]

  pub after-own : voters_of b' hid ≡ put k tt (voters_of b hid)
  after-own = after_vote b b' hid hid k e ∙ rw (bytes_eq_refl hid) refl

  pub after-Distinct :
      ((id : Bytes) → Distinct (keys_of (voters_of b id)))
      → (id : Bytes) → Distinct (keys_of (voters_of b' id))
  after-Distinct d id = elim (Bool-cases (bytes_eq hid id)) [
    | inr other ↦ rw (after_vote b b' hid id k e, other) (d id)
    | inl same ↦ rw (after_vote b b' hid id k e, same) (put-Distinct k tt (voters_of b hid) (d hid))
  ]

  pub after-voted :
      (id j : Bytes)
      → has j (voters_of b' id) ≡ true
      → ((hid ≡ id) × (k ≡ j)) ⊎ (has j (voters_of b id) ≡ true)
  after-voted id j h = elim (Bool-cases (bytes_eq hid id)) [
    | inr other ↦ inr (sym (ap (has j) (after_vote b b' hid id k e ∙ rw other refl)) ∙ h)
    | inl same ↦
        let is = bytes_eq_sound hid id same in
        let h' : has j (put k tt (voters_of b hid)) ≡ true =
          sym (ap (has j) (after_vote b b' hid id k e ∙ rw same refl)) ∙ h in
        elim (Bool-cases (bytes_eq k j)) [
          | inl own ↦ inl (is, bytes_eq_sound k j own)
          | inr other ↦ inr (
              ap (λ i. has j (voters_of b i)) (sym is)
              ∙ (sym (has-put k j tt (voters_of b hid) ∙ rw other refl) ∙ h'))
        ]
  ]
