-- ===== src/Hazard.antt =====
-- src/executor/graph_ops.rs: the buffers that a dispatch touches, and the cursor that decides where
-- a compute barrier goes. Buffers are their Vulkan handles.
pub mod Separation
pub mod Need
use package.tensor_ash.Prelude.{
  ℕ, zero, suc, ◌+◌, Bool, true, false, ◌&&◌, ◌||◌, List, [], ◌∷◌, ◌++◌, contains, ltb,
  if◌then◌else◌,
}

pub record Access : Type 0 where
  pub reads : List ℕ
  pub writes : List ℕ

-- `Access::default()`.
abbrev pub nothing : Access
nothing = record { reads = []; writes = [] }

-- `Access::read`, `read_cell` and `read_raw`, by the handle that they push.
abbrev pub reading : ℕ → Access → Access
reading h a = record a { reads = a.reads ++ h ∷ [] }

-- `Access::write` and `write_cell`.
abbrev pub writing : ℕ → Access → Access
writing h a = record a { writes = a.writes ++ h ∷ [] }

-- Does any of the handles occur in the pending list?
unfoldable pub any_in : List ℕ → List ℕ → Bool
any_in pending [] = false
any_in pending (h ∷ hs) = contains pending h || any_in pending hs

-- `Access::hazard_with`.
unfoldable pub hazard_with : Access → List ℕ → List ℕ → Bool
unfolding any_in
hazard_with a pending_writes pending_reads =
    any_in pending_writes (a.reads ++ a.writes) || any_in pending_reads a.writes

pub record HazardCursor : Type 0 where
  pub pending_writes : List ℕ
  pub pending_reads : List ℕ

-- `HazardCursor::new`.
abbrev pub fresh : HazardCursor
fresh = record { pending_writes = []; pending_reads = [] }

abbrev pub extend : HazardCursor → Access → HazardCursor
extend c a = record {
  pending_writes = c.pending_writes ++ a.writes;
  pending_reads = c.pending_reads ++ a.reads;
}

-- `HazardCursor::barrier_before`: the cursor after the dispatch, and whether a barrier precedes it.
unfoldable pub barrier_before : HazardCursor → ℕ → Access → HazardCursor × Bool
barrier_before c index a =
    let needed = ltb 0 index && hazard_with a c.pending_writes c.pending_reads in
    (if needed then extend fresh a else extend c a, needed)

-- The answers of `barrier_before` along an access list, from an index on.
unfoldable pub barriers_from : HazardCursor → ℕ → List Access → List Bool
barriers_from c index [] = []
barriers_from c index (a ∷ rest) =
    let (c', needed) = barrier_before c index a in needed ∷ barriers_from c' (suc index) rest

abbrev pub barriers : List Access → List Bool
barriers = barriers_from fresh 0
