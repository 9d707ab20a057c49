-- ===== src/Multicluster/Plugin/Admission.antt =====
-- Which nodes the multicluster plugin lets a pod onto.
use super_scheduling.Prelude.{
  ◌≡◌, ◌≢◌, ap, refl, sym, ◌∙◌, ◌↔◌, ◌⊎◌, none, Map, true, false, some, [], ◌∷◌, String, lookup,
  Result, ok, err, nat_beq, ◌==◌, ◌||◌, subst, ==_iff, string_eq, arith, Bool-cases, Option-cases,
  inl, inr,
}
use super_scheduling.Api.Kubernetes.{Pod, NodeInfo, Node}
use super_scheduling.Api.Framework.{Status, new_status, success, unschedulable}
use super_scheduling.Util.{
  is_virtual_node, get_cluster_id, convert_annotations, selector_key, node_type,
  virtual_kubelet_label, cluster_id,
}
use super_scheduling.Multicluster.Plugin.{
  ClustersNodeSelection, Scheduler, ScheduleResult, MultiSchedulingPlugin, select, filter_result,
  filter_cluster, filter_info, multicluster_filter,
}

-- The scheduler found a node for the pod.
abbrev pub IsFound : Result ScheduleResult → Type 0
IsFound r =
    (result : ScheduleResult) × (r ≡ ok result)
    × (¬ (result.feasible_nodes ≡ 0))
    × (¬ (result.suggested_host ≡ ""))

abbrev pub succeeds : Status
succeeds = new_status success ("" ∷ [])

module _ {Affinity Toleration : Type 0} (m : MultiSchedulingPlugin Affinity Toleration)
    (pod : Pod) where
  -- The node is virtual and names a cluster that has the scheduler.
  abbrev pub IsSchedulerOf : Node → Scheduler Affinity Toleration → Type 0
  IsSchedulerOf node scheduler =
      (lookup node_type node.labels ≡ some virtual_kubelet_label)
      × ((name : String) × (lookup cluster_id node.labels ≡ some name)
          × (¬ (name ≡ ""))
          × (lookup name m.schedulers ≡ some scheduler))

  refusal : (reason : String) → ¬ (new_status unschedulable (reason ∷ []) ≡ succeeds)
  refusal reason e = cc

  is_empty_iff :
      (result : ScheduleResult)
      → ((nat_beq result.feasible_nodes 0 || result.suggested_host == "") ≡ false)
        ↔ ((¬ (result.feasible_nodes ≡ 0)) × (¬ (result.suggested_host ≡ "")))
  is_empty_iff result = ground (arith, ==_iff result.suggested_host "")

  filter_result-IsFound : (r : Result ScheduleResult) → (filter_result m r ≡ succeeds) ↔ IsFound r
  unfolding filter_result
  filter_result-IsFound (err e) =
      (λ q. absurd (refusal (m.no_nodes e) q), λ (result, same, feasible, host). cc same)
  filter_result-IsFound (ok result) =
      elim (Bool-cases (nat_beq result.feasible_nodes 0 || result.suggested_host == "")) [
        | inl empty ↦ (
          λ e. absurd (refusal _ (rw empty at e)),
          λ (r, same, feasible, host).
              let back : r ≡ result = cc same in
              let fits =
                subst
                  (λ (x : ScheduleResult). (¬ (x.feasible_nodes ≡ 0)) × (¬ (x.suggested_host ≡ "")))
                  back (feasible, host) in
              absurd (cc (empty, (is_empty_iff result).1 fits)),
        )
        | inr full ↦ (
          λ e.
              let (feasible, host) = (is_empty_iff result).0 full in (result, refl, feasible, host),
          λ found. rw full refl,
        )
      ]

  virtual_iff :
      (node : Node)
      → (is_virtual_node (some node) ≡ true)
        ↔ (lookup node_type node.labels ≡ some virtual_kubelet_label)
  unfolding is_virtual_node
  virtual_iff node = elim (Option-cases (lookup node_type node.labels)) [
    | inl missing ↦ ground arith
    | inr (val, found) ↦ ground (arith, ==_iff val virtual_kubelet_label)
  ]

  -- A node whose virtual cluster has no scheduler in the plugin is let through.
  unasked :
      (node : Node)
      → filter_cluster m pod node ≡ succeeds
      → ((scheduler : Scheduler Affinity Toleration) → ¬ IsSchedulerOf node scheduler)
      → (filter_cluster m pod node ≡ succeeds) ↔ (
          (scheduler : Scheduler Affinity Toleration)
          → IsSchedulerOf node scheduler
          → IsFound (scheduler.filter pod (select m pod)))
  unasked node passed without = (λ _ scheduler asked. absurd (without scheduler asked), λ _. passed)

  asked_lem :
      (node : Node) (scheduler : Scheduler Affinity Toleration)
      → IsSchedulerOf node scheduler
      → filter_cluster m pod node ≡ filter_result m (scheduler.filter pod (select m pod))
  unfolding filter_cluster get_cluster_id
  asked_lem node scheduler (virtual, (name, named, full, there)) =
      rw ((virtual_iff node).1 virtual, filter_cluster)
        (ground (arith, named, there, full, ==_iff name ""))

  filter_cluster_iff :
      (node : Node)
      → (filter_cluster m pod node ≡ succeeds) ↔ (
          (scheduler : Scheduler Affinity Toleration)
          → IsSchedulerOf node scheduler
          → IsFound (scheduler.filter pod (select m pod)))
  unfolding filter_cluster get_cluster_id
  filter_cluster_iff node = elim (Bool-cases (is_virtual_node (some node))) [
    | inr real ↦
        unasked node (rw (real, filter_cluster))
          (λ scheduler (virtual, named). cc (real, (virtual_iff node).1 virtual))
    | inl virtual ↦ elim (Option-cases (lookup cluster_id node.labels)) [
      | inl missing ↦
          unasked node (rw (virtual, filter_cluster) (rw (missing, get_cluster_id) refl))
            (λ scheduler (_, (name, named, _, _)). cc (missing, named))
      | inr (name, named) ↦ elim (Bool-cases (name == "")) [
        | inl empty ↦
            unasked node (rw (virtual, filter_cluster) (rw (named, get_cluster_id) (rw empty refl)))
              (λ scheduler (_, (other, named', full, _)).
                full (cc (named, named', (==_iff name "").0 empty)))
        | inr full ↦ elim (Option-cases (lookup name m.schedulers)) [
          | inl unknown ↦
              unasked node
                (rw (virtual, filter_cluster)
                  (rw (named, get_cluster_id) (rw full (rw unknown refl))))
                (λ scheduler (_, (other, named', _, there)).
                  let same : other ≡ name = cc (named, named') in
                  cc (unknown, subst (λ x. lookup x m.schedulers ≡ some scheduler) same there))
          | inr (scheduler, there) ↦
              let is_asked : IsSchedulerOf node scheduler = (
                (virtual_iff node).0 virtual,
                (name, named, λ e. cc (full, (==_iff name "").1 e), there),
              ) in
              let decided = asked_lem node scheduler is_asked in
              let found = filter_result-IsFound (scheduler.filter pod (select m pod)) in
              (
                λ e other (_, (name', named', _, there')).
                    let same_name : name' ≡ name = cc (named, named') in
                    let same : scheduler ≡ other =
                      cc
                        (there, subst (λ x. lookup x m.schedulers ≡ some other) same_name there') in
                    subst
                      (λ (x : Scheduler Affinity Toleration). IsFound (x.filter pod (select m pod)))
                      same (found.0 (sym decided ∙ e)),
                λ all. decided ∙ found.1 (all scheduler is_asked),
              )
        ]
      ]
    ]
  ]

  filter_lem :
      (node_info : NodeInfo) (node : Node)
      → m.has_snapshot ≡ true
      → node_info.node ≡ some node
      → multicluster_filter m pod (some node_info) ≡ filter_cluster m pod node
  unfolding multicluster_filter filter_info
  filter_lem node_info node snapshot there = ground (arith, snapshot, there)

  -- The text of the pod's annotation for the selection is not empty and decodes to `cns`.
  pub record IsAnnotated (cns : ClustersNodeSelection Affinity Toleration) : Type 0 where
    pub annotations : Map String String
    pub text : String
    pub has_annotations : pod.annotations ≡ some annotations
    pub found : lookup "clusterSelector" annotations ≡ some text
    pub full : text ≢ ""
    pub decoded : m.unmarshal text ≡ ok cns

  -- What a scheduler is given in place of the pod's own selector, affinity and tolerations: those of
  -- the annotation, or none at all where the pod has no such annotation.
  abbrev pub IsSelection : ClustersNodeSelection Affinity Toleration → Type 0
  IsSelection cns =
      IsAnnotated cns
      ⊎ (((other : ClustersNodeSelection Affinity Toleration) → ¬ IsAnnotated other)
          × (cns ≡ record { node_selector = none; affinity = none; tolerations = [] }))

  annotated_lem :
      (cns : ClustersNodeSelection Affinity Toleration)
      → IsAnnotated cns
      → convert_annotations m.unmarshal pod.annotations ≡ some cns
  unfolding convert_annotations
  annotated_lem cns is =
      ap (convert_annotations m.unmarshal) is.has_annotations
      ∙ ground (arith, is.found, is.full, is.decoded, ==_iff is.text "")

  convert_annotations-IsAnnotated :
      (cns : ClustersNodeSelection Affinity Toleration)
      → convert_annotations m.unmarshal pod.annotations ≡ some cns
      → IsAnnotated cns
  unfolding convert_annotations
  convert_annotations-IsAnnotated cns converted = elim (Option-cases pod.annotations) [
    | inl missing ↦ absurd (cc (converted, ap (convert_annotations m.unmarshal) missing))
    | inr (annotations, there) ↦
        let e : convert_annotations m.unmarshal (some annotations) ≡ some cns =
          sym (ap (convert_annotations m.unmarshal) there) ∙ converted in
        elim (Option-cases (lookup selector_key annotations)) [
          | inl unkeyed ↦ absurd (ground (arith, e, unkeyed))
          | inr (text, found) ↦ record {
            annotations = annotations;
            text = text;
            has_annotations = there;
            found = found;
            full = λ empty. ground (arith, e, found, empty, ==_iff text "");
            decoded = ground (arith, e, found);
          }
        ]
  ]

  -- The selection is that of the code, and there is no other.
  select_iff :
      (cns : ClustersNodeSelection Affinity Toleration) → IsSelection cns ↔ (cns ≡ select m pod)
  unfolding select
  select_iff cns = elim (Option-cases (convert_annotations m.unmarshal pod.annotations)) [
    | inr (own, converted) ↦
        let made : select m pod ≡ own = rw (converted, select) in
        (
          λ given. elim given [
            | inl annotated ↦ cc (annotated_lem cns annotated)
            | inr (without, _) ↦
                absurd (without own (convert_annotations-IsAnnotated own converted))
          ],
          λ e. inl (convert_annotations-IsAnnotated cns (cc (converted, made, e))),
        )
    | inl unconverted ↦
        let made : select m pod
            ≡ record { node_selector = none; affinity = none; tolerations = [] } =
          rw (unconverted, select) in
        (
          λ given. elim given [
            | inl annotated ↦ absurd (cc (unconverted, annotated_lem cns annotated))
            | inr (_, empty) ↦ empty ∙ sym made
          ],
          λ e. inr (λ other annotated. cc (unconverted, annotated_lem other annotated), e ∙ made),
        )
  ]

  -- With a snapshot and a node, the plugin lets the pod onto the node exactly when no scheduler is
  -- asked or the one that is asked finds a node: a scheduler is asked only where the node is
  -- virtual and names a cluster that the plugin has a scheduler for, and it is given, in place of
  -- the pod's own selector, affinity and tolerations, those that the text of the pod's annotation
  -- decodes to, or none where the annotation is missing, is empty or does not decode.
  pub multicluster_filter_iff :
      (node_info : NodeInfo) (node : Node)
      → m.has_snapshot ≡ true
      → node_info.node ≡ some node
      → (multicluster_filter m pod (some node_info) ≡ succeeds) ↔ (
          (scheduler : Scheduler Affinity Toleration)
          (cns : ClustersNodeSelection Affinity Toleration)
          → IsSchedulerOf node scheduler
          → IsSelection cns
          → IsFound (scheduler.filter pod cns))
  multicluster_filter_iff node_info node snapshot there =
      let decision = filter_cluster_iff node in
      let same = filter_lem node_info node snapshot there in
      (
        λ e scheduler cns asked given.
            subst (λ c. IsFound (scheduler.filter pod c)) (sym ((select_iff cns).0 given))
              (decision.0 (sym same ∙ e) scheduler asked),
        λ all.
            same
            ∙ decision.1 λ scheduler asked.
              all scheduler (select m pod) asked ((select_iff (select m pod)).1 refl),
      )
