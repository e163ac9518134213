-- ===== src/Serving/Event.antt =====
-- src/serving/event.rs.
use kvflow_sim.Base.{ℕ}

pub data ServingEvent : Type 0 where
  request_arrival : (request_id : ℕ) → ServingEvent
  prefill_done : (request_id node_id gpu_idx : ℕ) → ServingEvent
  fetch_done : (request_id : ℕ) → ServingEvent
  decode_done : (request_id node_id gpu_idx : ℕ) → ServingEvent
