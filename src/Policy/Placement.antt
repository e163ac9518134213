-- ===== src/Policy/Placement.antt =====
-- The arguments and results of `PlacementPolicy::place` in src/policy/placement.rs, and the last
-- step that every policy takes.
use kvflow_sim.Base.{ℕ, List}
use kvflow_sim.Error.{Result, ok, ◌>>=◌}
use kvflow_sim.Cache.Object.{CacheLocation, KvObject}
use kvflow_sim.Cache.State
use kvflow_sim.Cache.State.{CacheState}

pub record EvictedKv : Type 0 where
  pub kv_id : ℕ
  pub bytes : ℕ

-- The object to be placed.
pub record PlaceRequest : Type 0 where
  pub kv_id : ℕ
  pub session_id : ℕ
  pub prefix_tokens : ℕ
  pub bytes : ℕ
  pub now_ns : ℕ

-- The cache is written to also where the result is an error.
abbrev pub Placed : Type 0
Placed = CacheState × Result (CacheLocation × List EvictedKv)

abbrev pub object_at : PlaceRequest → CacheLocation → KvObject
object_at r loc = record {
  kv_id = r.kv_id;
  session_id = r.session_id;
  model_id = "";
  prefix_tokens = r.prefix_tokens;
  bytes = r.bytes;
  location = loc;
  last_access_ns = r.now_ns;
  ref_count = 0;
}

-- `cache.insert(obj)?; return Ok((loc, evicted));`.
unfoldable pub store_at : CacheState → PlaceRequest → CacheLocation → List EvictedKv → Placed
store_at c r loc evicted =
    let (c', stored) = State.insert c (object_at r loc) in (c', stored >>= λ _. ok (loc, evicted))
