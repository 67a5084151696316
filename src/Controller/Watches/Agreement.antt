-- ===== src/Controller/Watches/Agreement.antt =====
-- The pods that the watch selects, and those that a round lists.
use mathlib.Core.Path.{subst}
use gpu_k8s_operator.Prelude.{◌≡◌, true, sym, String, List, ◌∷◌, ok, ◌↔◌, IsIn, Any-IsIn}
use gpu_k8s_operator.Numbers.{Numbers}
use gpu_k8s_operator.Kube.{Pod, is_zero_ptr}
use gpu_k8s_operator.Api.{GpuWorkloadBudget}
use gpu_k8s_operator.Cluster.{Cluster, Call, Selector, get_budget, list_pods}
use gpu_k8s_operator.Controller.Status.{finalizer_name}
use gpu_k8s_operator.Controller.Reconciler.{reconcile_pods, reconcile}
use gpu_k8s_operator.Controller.Reconciler.Listing.{reconcile_listed}
use gpu_k8s_operator.Controller.Reconciler.Requests.{Matches, Holds, map_pod_to_budgets_iff}
use gpu_k8s_operator.Controller.Watches.{pod_event, requests_of}

module _ (num : Numbers) (cl : Cluster num) (pods : List (Pod num.Quantity))
    (budgets : List (GpuWorkloadBudget num.Quantity)) where
  open num use {Float, Quantity}

  -- A server that holds these pods and budgets, finds the budgets by name and lists both by
  -- namespace and selector. No budget is being deleted, and each has had its first round, which
  -- adds the finalizer.
  pub record Serves : Type 0 where
    pub got :
        (h : List (Call Quantity Float)) (b : GpuWorkloadBudget Quantity)
        → IsIn b budgets
        → cl.get h b.namespace b.name ≡ ok b
    pub live :
        (b : GpuWorkloadBudget Quantity) → IsIn b budgets → is_zero_ptr b.deletion_timestamp ≡ true
    pub holds :
        (b : GpuWorkloadBudget Quantity)
        → IsIn b budgets
        → cl.contains_finalizer b.finalizers finalizer_name ≡ true
    pub listed :
        (h : List (Call Quantity Float)) (namespace : String) (s : Selector)
        → (ps : List (Pod Quantity)) × (cl.list h namespace s ≡ ok ps)
          × ((p : Pod Quantity)
              → IsIn p ps ↔ (IsIn p pods × (p.namespace ≡ namespace) × (s p.labels ≡ true)))
    pub all_listed :
        (h : List (Call Quantity Float)) (namespace : String)
        → (bs : List (GpuWorkloadBudget Quantity)) × (cl.list_all h namespace ≡ ok bs)
          × ((b : GpuWorkloadBudget Quantity)
              → IsIn b bs ↔ (IsIn b budgets × (b.namespace ≡ namespace)))

  -- The round for the budget, begun after these calls, fetches it, lists pods, and goes on with the
  -- answer, which holds the pod.
  abbrev pub RoundLists :
      List (Call Quantity Float) → GpuWorkloadBudget Quantity → Pod Quantity → Type 0
  RoundLists k b p =
      let fetched = get_budget b.namespace b.name ∷ k in
      (s : Selector) × (cl.label_selector_as_selector b.spec.selector ≡ ok s)
      × ((ps : List (Pod Quantity)) × (cl.list fetched b.namespace s ≡ ok ps)
          × (reconcile num cl b.namespace b.name k
              ≡ reconcile_pods num cl b (cl.now fetched) (ok ps)
                  (list_pods b.namespace s ∷ fetched))
          × IsIn p ps)

  module _ (serves : Serves) where
    open serves use {listed, all_listed}

    -- A round lists the pod exactly if the watch matches it and the namespaces agree.
    Matches-iff :
        (k : List (Call Quantity Float)) (b : GpuWorkloadBudget Quantity) (p : Pod Quantity)
        → IsIn b budgets
        → IsIn p pods
        → RoundLists k b p ↔ (Matches num cl p b × (b.namespace ≡ p.namespace))
    Matches-iff k b p known held =
        let fetched = get_budget b.namespace b.name ∷ k in
        (
          (λ r.
              let (s, parsed, (ps, answer, round, found)) = r in
              let (qs, again, iff) = listed fetched b.namespace s in
              let one : ps ≡ qs = cc (answer, again) in
              let (i, same, m) = (iff p).0 (subst (λ l. IsIn p l) one found) in
              ((s, parsed, m), sym same)),
          (λ m.
              let ((s, parsed, matches), same) = m in
              let (qs, answer, iff) = listed fetched b.namespace s in
              (
                s,
                parsed,
                (
                  qs,
                  answer,
                  reconcile_listed num cl b.namespace b.name k b s qs (serves.got k b known)
                      (serves.live b known) (serves.holds b known) parsed answer,
                  (iff p).1 (held, sym same, matches),
                ),
              )),
        )

    -- The watch and the round agree on a server that finds and lists what it holds, where no budget
    -- is being deleted and each holds the finalizer: the event of a pod that the server holds
    -- enqueues exactly the budgets whose round of Reconcile fetches them, lists pods, and goes on
    -- with a list that holds that pod; and it never fails.
    pub requests_of_iff :
        (h k : List (Call Quantity Float)) (p : Pod Quantity)
        → IsIn p pods
        → (out : List (String × String)) × ((requests_of num cl (pod_event p) h).1 ≡ ok out)
          × ((q : String × String)
              → Holds num cl p q out ↔ (
                  (b : GpuWorkloadBudget Quantity) × IsIn b budgets
                  × (q ≡ (b.namespace, b.name))
                  × RoundLists k b p))
    unfolding requests_of
    requests_of_iff h k p held =
        let (bs, answer, all) = all_listed h p.namespace in
        let (out, made, iff) = map_pod_to_budgets_iff num cl p h (ok bs) answer in
        (
          out,
          made,
          λ q.
              let any = Any-IsIn (λ b. Matches num cl p b × (q ≡ (b.namespace, b.name))) bs in
              (
                (λ k'.
                    let (b, i, (m, e)) = any.0 ((iff q).0 k') in
                    let (j, same) = (all b).0 i in
                    (b, j, e, (Matches-iff k b p j held).1 (m, same))),
                (λ m.
                    let (b, j, e, lists) = m in
                    let (matches, same) = (Matches-iff k b p j held).0 lists in
                    (iff q).1 (any.1 (b, (all b).1 (j, same), (matches, e)))),
              ),
        )
