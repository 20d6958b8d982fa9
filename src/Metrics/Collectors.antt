-- ===== src/Metrics/Collectors.antt =====
-- internal/metrics/metrics.go: the collectors and the list that `init` registers. The bounds of a
-- histogram's buckets are in thousandths of a second.
use kubernetes_operators.Common.{ℕ, String, List, [], ◌∷◌}

pub data Kind : Type 0 where
  counter gauge : Kind
  histogram : (buckets : List ℕ) → Kind

pub record Collector : Type 0 where
  pub name : String
  pub help : String
  pub kind : Kind
  pub labels : List String

abbrev pub reconcile_total : Collector
reconcile_total = record {
  name = "platform_operator_reconcile_total";
  help = "Total number of reconciliation attempts";
  kind = counter;
  labels = "result" ∷ [];
}

abbrev pub reconcile_errors_total : Collector
reconcile_errors_total = record {
  name = "platform_operator_reconcile_errors_total";
  help = "Total number of reconciliation errors";
  kind = counter;
  labels = "error_type" ∷ "error_class" ∷ [];
}

abbrev pub reconcile_duration_seconds : Collector
reconcile_duration_seconds = record {
  name = "platform_operator_reconcile_duration_seconds";
  help = "Duration of reconciliation in seconds";
  kind = histogram (1 ∷ 5 ∷ 10 ∷ 25 ∷ 50 ∷ 100 ∷ 250 ∷ 500 ∷ 1000 ∷ 2500 ∷ 5000 ∷ 10000 ∷ []);
  labels = "result" ∷ [];
}

abbrev pub managed_applications : Collector
managed_applications = record {
  name = "platform_operator_managed_applications";
  help = "Current number of managed PlatformApplication resources";
  kind = gauge;
  labels = [];
}

abbrev pub sub_reconcile_total : Collector
sub_reconcile_total = record {
  name = "platform_operator_sub_reconcile_total";
  help = "Total number of sub-reconciler operations";
  kind = counter;
  labels = "resource" ∷ "result" ∷ [];
}

abbrev pub sub_reconcile_duration_seconds : Collector
sub_reconcile_duration_seconds = record {
  name = "platform_operator_sub_reconcile_duration_seconds";
  help = "Duration of sub-reconciler operations in seconds";
  kind = histogram (1 ∷ 5 ∷ 10 ∷ 25 ∷ 50 ∷ 100 ∷ 250 ∷ 500 ∷ 1000 ∷ []);
  labels = "resource" ∷ [];
}

abbrev pub resource_apply_total : Collector
resource_apply_total = record {
  name = "platform_operator_resource_apply_total";
  help = "Total number of resource apply operations (SSA)";
  kind = counter;
  labels = "resource" ∷ "outcome" ∷ [];
}

abbrev pub reconcile_requeue_total : Collector
reconcile_requeue_total = record {
  name = "platform_operator_reconcile_requeue_total";
  help = "Total number of reconciliation requeues";
  kind = counter;
  labels = "reason" ∷ [];
}

abbrev pub status_update_total : Collector
status_update_total = record {
  name = "platform_operator_status_update_total";
  help = "Total number of status update attempts";
  kind = counter;
  labels = "result" ∷ [];
}

abbrev pub api_call_duration_seconds : Collector
api_call_duration_seconds = record {
  name = "platform_operator_api_call_duration_seconds";
  help = "Duration of Kubernetes API calls (get, create, patch, delete)";
  kind = histogram (1 ∷ 5 ∷ 10 ∷ 25 ∷ 50 ∷ 100 ∷ 250 ∷ 500 ∷ 1000 ∷ 2500 ∷ []);
  labels = "operation" ∷ "resource" ∷ [];
}

abbrev pub noop_apply_total : Collector
noop_apply_total = record {
  name = "platform_operator_noop_apply_total";
  help = "Total number of apply operations where no changes were detected (semantic equality)";
  kind = counter;
  labels = "resource" ∷ [];
}

abbrev pub active_reconcilers : Collector
active_reconcilers = record {
  name = "platform_operator_active_reconcilers";
  help = "Number of currently active reconcile workers";
  kind = gauge;
  labels = [];
}

abbrev pub work_queue_depth : Collector
work_queue_depth = record {
  name = "platform_operator_workqueue_depth";
  help = "Current depth of the reconcile work queue";
  kind = gauge;
  labels = "name" ∷ [];
}

abbrev pub work_queue_latency : Collector
work_queue_latency = record {
  name = "platform_operator_workqueue_latency_seconds";
  help = "Time items spend in the work queue before processing";
  kind = histogram (1 ∷ 5 ∷ 10 ∷ 25 ∷ 50 ∷ 100 ∷ 250 ∷ 500 ∷ 1000 ∷ 2500 ∷ 5000 ∷ []);
  labels = "name" ∷ [];
}

-- The arguments of `metrics.Registry.MustRegister`.
abbrev pub registered : List Collector
registered =
    reconcile_total ∷ reconcile_errors_total ∷ reconcile_duration_seconds ∷ managed_applications
    ∷ sub_reconcile_total ∷ sub_reconcile_duration_seconds ∷ resource_apply_total
    ∷ reconcile_requeue_total ∷ status_update_total ∷ api_call_duration_seconds ∷ noop_apply_total
    ∷ active_reconcilers ∷ work_queue_depth ∷ work_queue_latency ∷ []
