-- ===== src/Cache/Object.antt =====
-- src/cache/object.rs.
use Prim.Native.String.{String}
use kvflow_sim.Base.{ℕ, Bool, true, false, Option, none, some, ◌==◌, nat_eq}

pub data CacheLocation : Type 0 where
  gpu : (node_id gpu_id : ℕ) → CacheLocation
  cpu : (node_id : ℕ) → CacheLocation
  local_ssd : (node_id : ℕ) → CacheLocation
  remote_memory : (node_id : ℕ) → CacheLocation
  remote_ssd : (node_id : ℕ) → CacheLocation
  missing : CacheLocation

pub record KvObject : Type 0 where
  pub kv_id : ℕ
  pub session_id : ℕ
  pub model_id : String
  pub prefix_tokens : ℕ
  pub bytes : ℕ
  pub location : CacheLocation
  pub last_access_ns : ℕ
  pub ref_count : ℕ

-- The node that hosts a location, if any.
abbrev pub node_id : CacheLocation → Option ℕ
node_id (gpu n _) = some n
node_id (cpu n) = some n
node_id (local_ssd n) = some n
node_id (remote_memory n) = some n
node_id (remote_ssd n) = some n
node_id missing = none

unfoldable pub is_gpu : CacheLocation → Bool
is_gpu (gpu _ _) = true
is_gpu _ = false

unfoldable pub is_local_to : CacheLocation → ℕ → Bool
is_local_to (gpu nid _) n = nid == n
is_local_to (cpu nid) n = nid == n
is_local_to (local_ssd nid) n = nid == n
is_local_to _ n = false
