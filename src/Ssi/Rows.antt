-- ===== src/Ssi/Rows.antt =====
-- Lemmas on the row sets of exp/onl/ssi: what the two loops of a commit write.
use dd.Base.{◌≡◌, refl, ℕ, ◌≤◌, ◌<◌, length, true, false, some, [], ◌∷◌, All, arith, if◌then◌else◌}
use dd.Base.Bytes.{Bytes, bytes_eq_iff}
use dd.Base.Map.{Map, get, put, has, get-put}
use dd.Externals.{Crypto, Radix}
use dd.Ssi.{
  Change, KeySet, KeyChangeSet, key_set, Oracle, commit_time, any_newer, mark, key_hash, add_change,
  insert_all,
}

pub has-key_set : (r : Bytes) (kvs : KeyChangeSet) → has r (key_set kvs) ≡ has r kvs
unfolding key_set has get
has-key_set r [] = refl
has-key_set r ((k, ch) ∷ kvs) = ground (arith, get-put k r tt (key_set kvs), has-key_set r kvs)

-- Every row of the write set gets the new time, and no other row changes.
pub get-mark :
    (t : ℕ) (r : Bytes) (ws : KeySet) (m : Map ℕ)
    → get r (mark t ws m) ≡ (if has r ws then some t else get r m)
unfolding mark has get
get-mark t r [] m = refl
get-mark t r ((k, _) ∷ ws) m = ground (arith, get-mark t r ws (put k t m), get-put k r t m)

pub commit_time-mark :
    (t : ℕ) (r : Bytes) (ws : KeySet) (o : Oracle)
    → commit_time (record { time = t; commits = mark t ws o.commits }) r
      ≡ (if has r ws then t else commit_time o r)
unfolding commit_time
commit_time-mark t r ws o = ground (arith, get-mark t r ws o.commits)

-- Where the read set has no newer row, each of its rows was last written at `ts` or before.
pub any_newer_sound :
    (o : Oracle) (rr : KeySet) (ts : ℕ) (r : Bytes)
    → any_newer o rr ts ≡ false
    → has r rr ≡ true
    → commit_time o r ≤ ts
unfolding any_newer has get
any_newer_sound o [] ts r h p = cc
any_newer_sound o ((k, _) ∷ rr) ts r h p =
    ground (arith, any_newer_sound o rr ts r, bytes_eq_iff k r)

pub any_newer_complete :
    (o : Oracle) (rr : KeySet) (ts : ℕ)
    → ((r : Bytes) → commit_time o r ≤ ts)
    → any_newer o rr ts ≡ false
unfolding any_newer
any_newer_complete o [] ts h = refl
any_newer_complete o ((k, _) ∷ rr) ts h = ground (arith, any_newer_complete o rr ts h, h k)

pub any_newer-found :
    (o : Oracle) (rr : KeySet) (ts : ℕ) (r : Bytes)
    → has r rr ≡ true
    → ts < commit_time o r
    → any_newer o rr ts ≡ true
unfolding any_newer has get
any_newer-found o [] ts r p h = cc
any_newer-found o ((k, _) ∷ rr) ts r p h =
    ground (arith, any_newer-found o rr ts r, bytes_eq_iff k r)

pub length-has {ℓ} : {V : Type ℓ} (r : Bytes) (m : Map V) → has r m ≡ true → 1 ≤ length m
unfolding has get
length-has r [] h = cc
length-has r (e ∷ m) h = omega arith

module _ ⦃c : Crypto⦄ where
  -- Each change stands under the hash of its key.
  abbrev pub IsKeyed : KeyChangeSet → Type 0
  IsKeyed kvs = All (λ (e : Bytes × Change). e.0 ≡ key_hash e.1.k) kvs

  pub put-IsKeyed : (k v : Bytes) (kvs : KeyChangeSet) → IsKeyed kvs → IsKeyed (add_change k v kvs)
  unfolding put
  put-IsKeyed k v [] h = (refl, tt)
  put-IsKeyed k v ((j, ch) ∷ kvs) h =
      ground (arith, put-IsKeyed k v kvs h.1, bytes_eq_iff j (key_hash k))

module _ ⦃c : Crypto⦄ ⦃r : Radix⦄ where
  -- A row that the write set does not name keeps its value.
  pub lookup-insert_all :
      (k : Bytes) (ws : KeyChangeSet) (t : r.Tree)
      → IsKeyed ws
      → has (key_hash k) ws ≡ false
      → r.lookup k (insert_all ws t) ≡ r.lookup k t
  unfolding insert_all has get
  lookup-insert_all k [] t h p = refl
  lookup-insert_all k ((j, ch) ∷ ws) t h p = ground (
    arith,
    lookup-insert_all k ws (r.insert ch.k ch.v t) h.1,
    r.lookup-insert ch.k k ch.v t,
    bytes_eq_iff j (key_hash k),
    bytes_eq_iff ch.k k,
  )
