-- ===== src/Metrics.antt =====
-- pkg/metrics/metrics.go: the counters and the histogram. A counter vector is a function of its label
-- values; durations are in nanoseconds.
use karpenter_provider_hetzn.Base.{ℕ, ◌+◌, String, List, [], ◌∷◌, ◌++◌, str_eq, if◌then◌else◌}

pub record Metrics : Type 0 where
  pub server_create_total : String → ℕ
  pub server_create_duration_seconds : List ℕ
  pub server_delete_total : String → ℕ
  pub hcloud_api_calls_total : String → String → ℕ
  pub drift_detected_total : String → ℕ
  pub selection_skipped_total : String → String → ℕ
  pub image_resolution_errors_total : ℕ
  pub instance_type_cache_total : String → ℕ

abbrev pub result_success : String
result_success = "success"

abbrev pub result_error : String
result_error = "error"

-- `WithLabelValues(k).Inc()`
unfoldable pub inc : String → (String → ℕ) → String → ℕ
inc k f j = if str_eq k j then f j + 1 else f j

unfoldable pub inc_pair : String → String → (String → String → ℕ) → String → String → ℕ
unfolding inc
inc_pair k l f j = if str_eq k j then inc l (f j) else f j

unfoldable pub record_server_create : String → ℕ → Metrics → Metrics
unfolding inc inc_pair
record_server_create result dur m = record m {
  server_create_total = inc result m.server_create_total;
  server_create_duration_seconds = m.server_create_duration_seconds ++ (dur ∷ []);
  hcloud_api_calls_total = inc_pair "server_create" result m.hcloud_api_calls_total;
}

unfoldable pub record_server_delete : String → Metrics → Metrics
unfolding inc inc_pair
record_server_delete result m = record m {
  server_delete_total = inc result m.server_delete_total;
  hcloud_api_calls_total = inc_pair "server_delete" result m.hcloud_api_calls_total;
}

unfoldable pub record_drift : String → Metrics → Metrics
unfolding inc
record_drift reason m = record m { drift_detected_total = inc reason m.drift_detected_total }

unfoldable pub record_selection_skipped : String → String → Metrics → Metrics
unfolding inc inc_pair
record_selection_skipped arch reason m = record m {
  selection_skipped_total = inc_pair arch reason m.selection_skipped_total;
}

unfoldable pub record_image_resolution_error : Metrics → Metrics
record_image_resolution_error m = record m {
  image_resolution_errors_total = m.image_resolution_errors_total + 1;
}

unfoldable pub record_cache_hit : Metrics → Metrics
unfolding inc
record_cache_hit m = record m { instance_type_cache_total = inc "hit" m.instance_type_cache_total }

unfoldable pub record_cache_miss : Metrics → Metrics
unfolding inc
record_cache_miss m = record m {
  instance_type_cache_total = inc "miss" m.instance_type_cache_total;
}

unfoldable pub record_cache_stale : Metrics → Metrics
unfolding inc
record_cache_stale m = record m {
  instance_type_cache_total = inc "stale" m.instance_type_cache_total;
}

-- The counters at the start of the process.
abbrev pub zero_metrics : Metrics
zero_metrics = record {
  server_create_total = λ k. 0;
  server_create_duration_seconds = [];
  server_delete_total = λ k. 0;
  hcloud_api_calls_total = λ k l. 0;
  drift_detected_total = λ k. 0;
  selection_skipped_total = λ k l. 0;
  image_resolution_errors_total = 0;
  instance_type_cache_total = λ k. 0;
}
