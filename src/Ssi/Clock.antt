-- ===== src/Ssi/Clock.antt =====
-- The clock of the status oracle (exp/onl/ssi/oracle.go).
use dd.Base.{◌≡◌, ℕ, ◌+◌, ◌≤◌, ◌<◌, arith, if◌then◌else◌}
use dd.Base.Bytes.{Bytes, u64_mod}
use dd.Base.Map.{get}
use native.Mathlib.Nat.{mod-eq_of_lt}
use dd.Ssi.{KeySet, Oracle, new_oracle, commit_time, any_newer, mark, oracle_commit}
use dd.Ssi.Rows.{commit_time-mark}

pub record IsClocked (o : Oracle) : Type 0 where
  pub started : 1 ≤ o.time
  pub reached : (r : Bytes) → commit_time o r ≤ o.time

pub IsClocked-new_oracle : IsClocked new_oracle
unfolding commit_time get
IsClocked-new_oracle = record { started = omega arith; reached = λ r. omega arith }

-- The oracle after a commit at time `o.time + 1`.
abbrev pub stamped : Oracle → KeySet → Oracle
stamped o rw = record { time = o.time + 1; commits = mark (o.time + 1) rw o.commits }

module _ (o : Oracle) (rr ws : KeySet) (ts : ℕ) (room : o.time + 1 < u64_mod) where
  -- With room on the clock a commit is a conflict, or it stamps the write set.
  pub oracle_commit_lem :
      oracle_commit o rr ws ts ≡ (if any_newer o rr ts then (o, 0) else (stamped o ws, o.time + 1))
  unfolding oracle_commit
  oracle_commit_lem = rw (mod-eq_of_lt room)

  pub oracle_commit-time :
      (o.time ≤ (oracle_commit o rr ws ts).0.time)
      × ((oracle_commit o rr ws ts).0.time ≤ o.time + 1)
  oracle_commit-time = ground (arith, oracle_commit_lem)

  pub oracle_commit-reached :
      IsClocked o
      → (r : Bytes) → commit_time (oracle_commit o rr ws ts).0 r ≤ (oracle_commit o rr ws ts).0.time
  oracle_commit-reached h r =
      ground (arith, oracle_commit_lem, commit_time-mark (o.time + 1) r ws o, h.reached r)

  pub oracle_commit-IsClocked : IsClocked o → IsClocked (oracle_commit o rr ws ts).0
  oracle_commit-IsClocked h = record {
    started = omega (arith, oracle_commit-time, h.started);
    reached = oracle_commit-reached h;
  }

  -- A row stays as new as it was, and the rows that a commit writes are newer than any before.
  pub commit_time-grows :
      IsClocked o → (r : Bytes) → commit_time o r ≤ commit_time (oracle_commit o rr ws ts).0 r
  commit_time-grows h r =
      ground (arith, oracle_commit_lem, commit_time-mark (o.time + 1) r ws o, h.reached r)
