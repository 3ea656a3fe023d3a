-- ===== src/Orchestrator/Workspace.antt =====
-- internal/modules/orchestrator/workspace.go: one shared workspace of a scan, from the job that
-- creates it to the job that removes it. The jobs that hold it are counted by what they do; each
-- step is a critical section of the cache's lock, or the end of the clone. Jobs that come after the
-- entry has left the map share another workspace. A clone that fails leaves no directory.
use guard_pipe.Prelude.{
  ℕ, suc, ◌+◌, ◌-◌, ◌<◌, ◌≡◌, Bool, true, false, not, ◌&&◌, Option, none, some, if◌then◌else◌, ltb,
  ◌==◌, arith, is_some,
}

-- `sharedWorkspace`: `outcome` is `none` until `ready` is closed, and then whether the clone
-- succeeded.
pub record Shared : Type 0 where
  pub ref_count : ℕ
  pub outcome : Option Bool
  pub in_map : Bool
  pub removed : Bool
  -- the jobs in `prepare`, waiting for `ready`, and between `acquire` and `release`
  pub preparing : ℕ
  pub waiting : ℕ
  pub reading : ℕ

abbrev pub has_directory : Option Bool → Bool
has_directory (some true) = true
has_directory _ = false

-- The workspace as the first `acquire` leaves the lock.
abbrev pub created : Shared
created = record {
  ref_count = 1;
  outcome = none;
  in_map = true;
  removed = false;
  preparing = 1;
  waiting = 0;
  reading = 0;
}

-- `releaseRef`
unfoldable pub release_ref : Shared → Shared
release_ref s =
    let last = s.ref_count - 1 == 0 in
    record s {
      ref_count = s.ref_count - 1;
      in_map = if last then false else s.in_map;
      removed = if last && has_directory s.outcome then true else s.removed;
    }

-- A later `acquire` finds the entry.
abbrev pub join : Shared → Shared
join s = record s { ref_count = suc s.ref_count; waiting = suc s.waiting }

-- `prepare` ends, and its job goes on.
unfoldable pub end_prepare : Bool → Shared → Shared
end_prepare true s = record s {
  outcome = some true;
  preparing = s.preparing - 1;
  reading = suc s.reading;
}
end_prepare false s = release_ref (record s { outcome = some false; preparing = s.preparing - 1 })

-- A waiting job sees `ready`.
unfoldable pub end_wait : Bool → Shared → Shared
end_wait true s = record s { waiting = s.waiting - 1; reading = suc s.reading }
end_wait false s = release_ref (record s { waiting = s.waiting - 1 })

-- A waiting job's context ends.
unfoldable pub give_up : Shared → Shared
give_up s = release_ref (record s { waiting = s.waiting - 1 })

-- A job calls `release`, which works once.
unfoldable pub release : Shared → Shared
release s = release_ref (record s { reading = s.reading - 1 })

pub data Step : Shared → Shared → Type 0 where
  joins : {s : Shared} → s.in_map ≡ true → Step s (join s)
  ends_prepare : {s : Shared} (good : Bool) → 0 < s.preparing → Step s (end_prepare good s)
  ends_wait :
      {s : Shared} (good : Bool) → 0 < s.waiting → s.outcome ≡ some good → Step s (end_wait good s)
  gives_up : {s : Shared} → 0 < s.waiting → Step s (give_up s)
  releases : {s : Shared} → 0 < s.reading → Step s (release s)

pub data Reachable : Shared → Type 0 where
  start : Reachable created
  next : {s t : Shared} → Reachable s → Step s t → Reachable t

-- What holds of a shared workspace at every moment.
pub record IsShared (s : Shared) : Type 0 where
  -- every holder is counted, and the entry is in the map while there is one
  pub counted : s.ref_count ≡ s.preparing + s.waiting + s.reading
  pub listed : s.in_map ≡ ltb 0 s.ref_count
  -- the clone runs once
  pub cloned_once : s.preparing + (if is_some s.outcome then 1 else 0) ≡ 1
  -- only a good clone is read, and it is there while it is read
  pub read_good : (ltb 0 s.reading && not (has_directory s.outcome)) ≡ false
  -- the directory is removed exactly when its last holder has left
  pub removed_last : s.removed ≡ (has_directory s.outcome && s.ref_count == 0)

Step-IsShared : {s t : Shared} → Step s t → IsShared s → IsShared t
unfolding end_prepare end_wait give_up release release_ref
Step-IsShared (joins {s} m) v = ground arith
Step-IsShared (ends_prepare {s} true p) v = ground arith
Step-IsShared (ends_prepare {s} false p) v = ground arith
Step-IsShared (ends_wait {s} true p o) v = ground arith
Step-IsShared (ends_wait {s} false p o) v = ground arith
Step-IsShared (gives_up {s} p) v = ground arith
Step-IsShared (releases {s} p) v = ground arith

-- In every interleaving of jobs that join, wait, give up, read and release, the holders of a
-- shared workspace are counted, the clone runs once, only a good clone is read, and its directory
-- is removed exactly when the last holder has left, so never while a job reads it.
pub Reachable-IsShared : {s : Shared} → Reachable s → IsShared s
Reachable-IsShared start = ground arith
Reachable-IsShared (next r e) = Step-IsShared e (Reachable-IsShared r)
