-- ===== src/Examples/Tallies.antt =====
-- A cluster that counts the calls and adds up the waits.
use kubernetes_operators.Common.{ℕ, suc, ◌+◌, ◌≤◌, [], none, arith}
use kubernetes_operators.Cluster.Client.{Client}
use kubernetes_operators.Cluster.Exec.{World}
use kubernetes_operators.Controller.{reconcile}
use kubernetes_operators.Controller.Budget.Children.{Charges}
use kubernetes_operators.Controller.Budget.{reconcile_bounded}
use kubernetes_operators.Examples.Fixtures.{shop_key, Fault, shop}
use kubernetes_operators.Examples.Clusters.{Home, shelved}

record Tally : Type 0 where
  calls : ℕ
  waited : ℕ
  home : Home

-- One more call, which leaves the cluster as given.
abbrev counted : {A : Type 0} → Tally → A × Home → A × Tally
counted s (a, h) = (a, record s { calls = suc s.calls; home = h })

abbrev tallied : Client Fault Tally
tallied = record {
  errors = shelved.errors;
  get = λ r k s. counted s (shelved.get r k s.home);
  create = λ o s. counted s (shelved.create o s.home);
  patch = λ o s. counted s (shelved.patch o s.home);
  delete = λ r k s. counted s (shelved.delete r k s.home);
  get_app = λ k s. counted s (shelved.get_app k s.home);
  update_app = λ a s. counted s (shelved.update_app a s.home);
  update_status = λ a s. counted s (shelved.update_status a s.home);
  now = λ s. (0, s);
  wait = λ n s. (none, record s { waited = s.waited + n });
  deep_equal = shelved.deep_equal;
  set_controller_reference = shelved.set_controller_reference;
  contains_finalizer = shelved.contains_finalizer;
  add_finalizer = shelved.add_finalizer;
  remove_finalizer = shelved.remove_finalizer;
  quantity_ok = shelved.quantity_ok;
}

tallied-calls : Charges tallied (λ s. s.calls) 1 (λ n. 0)
tallied-calls = record {
  get_costs = λ r k s. omega arith;
  create_costs = λ o s. omega arith;
  patch_costs = λ o s. omega arith;
  delete_costs = λ r k s. omega arith;
  get_app_costs = λ k s. omega arith;
  update_app_costs = λ a s. omega arith;
  update_status_costs = λ a s. omega arith;
  now_costs = λ s. omega arith;
  wait_costs = λ n s. omega arith;
}

tallied-waits : Charges tallied (λ s. s.waited) 0 (λ n. n)
tallied-waits = record {
  get_costs = λ r k s. omega arith;
  create_costs = λ o s. omega arith;
  patch_costs = λ o s. omega arith;
  delete_costs = λ r k s. omega arith;
  get_app_costs = λ k s. omega arith;
  update_app_costs = λ a s. omega arith;
  update_status_costs = λ a s. omega arith;
  now_costs = λ s. omega arith;
  wait_costs = λ n s. omega arith;
}

abbrev unspent : World Tally
unspent = record { api = record { calls = 0; waited = 0; home = (λ r. none, shop) }; log = [] }

reconcile_bounded_example :
    ((reconcile tallied shop_key unspent).1.api.calls ≤ 59)
    × ((reconcile tallied shop_key unspent).1.api.waited ≤ 4900)
reconcile_bounded_example =
    reconcile_bounded tallied (λ s. s.calls) (λ s. s.waited) tallied-calls tallied-waits shop_key
      unspent
