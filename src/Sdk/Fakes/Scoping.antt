-- ===== src/Sdk/Fakes/Scoping.antt =====
-- The ways from the fake clientset for all clusters to a client of one type in one cluster.
use init_agent.Base.{◌≡◌, ◌≢◌, refl, ◌⊎◌, inl, inr, Bool-cases, Text, text_eq, text_eq_iff, arith}
use init_agent.Effect.{Outcome, ok, panicked, ◌&>>=◌}
use init_agent.Sdk.Fakes.Group.{
  InitTargetsClient, InitTemplatesClient, cluster_init_targets, cluster_init_templates,
  init_targets, init_templates, group_cluster, targets_cluster, templates_cluster,
}
use init_agent.Sdk.Fakes.Clientset.{
  Trackers, ClusterClientset, clientset_cluster, cluster_initialization_v1alpha1,
  initialization_v1alpha1,
}

-- The three ways end alike.
abbrev pub AllEnd : {E A : Type 0} → Outcome E A → Outcome E A → Outcome E A → Outcome E A → Type 0
AllEnd first second third result = (first ≡ result) × (second ≡ result) × (third ≡ result)

module _ {Fk Tr STr Re WRe Any E W : Type 0} (trackers : Trackers Fk Tr STr Re WRe Any W)
    (cs : ClusterClientset Fk Tr) (cluster_path : Text) where
  -- To the InitTargets by a clientset of the cluster, by a client of the group for the cluster, and
  -- by the client of the InitTargets of all clusters.
  abbrev pub TargetsEnd : Outcome E (InitTargetsClient Fk) → Type 0
  TargetsEnd result =
      let group = cluster_initialization_v1alpha1 cs in
      AllEnd
        (clientset_cluster trackers cs cluster_path &>>= λ c.
          ok (init_targets (initialization_v1alpha1 c)))
        (group_cluster trackers.wildcard group cluster_path &>>= λ c. ok (init_targets c))
        (targets_cluster trackers.wildcard (cluster_init_targets group) cluster_path) result

  abbrev pub TemplatesEnd : Outcome E (InitTemplatesClient Fk) → Type 0
  TemplatesEnd result =
      let group = cluster_initialization_v1alpha1 cs in
      AllEnd
        (clientset_cluster trackers cs cluster_path &>>= λ c.
          ok (init_templates (initialization_v1alpha1 c)))
        (group_cluster trackers.wildcard group cluster_path &>>= λ c. ok (init_templates c))
        (templates_cluster trackers.wildcard (cluster_init_templates group) cluster_path) result

  -- From the fake clientset for all clusters, the clients of the InitTargets and of the
  -- InitTemplates of one cluster are the same whether the clientset, the client of the group or the
  -- client of the type is scoped to it: they share the Fake of the clientset and have the path of
  -- the cluster. The wildcard all three refuse with a panic.
  pub scoped_clients_agree :
      ((cluster_path ≡ trackers.wildcard) × TargetsEnd panicked × TemplatesEnd panicked)
      ⊎ ((cluster_path ≢ trackers.wildcard)
          × TargetsEnd (ok (record { fake = cs.fake; cluster_path = cluster_path }))
          × TemplatesEnd (ok (record { fake = cs.fake; cluster_path = cluster_path })))
  unfolding clientset_cluster group_cluster targets_cluster templates_cluster cluster_init_targets
      cluster_init_templates init_targets init_templates cluster_initialization_v1alpha1
      initialization_v1alpha1
  scoped_clients_agree = elim (Bool-cases (text_eq cluster_path trackers.wildcard)) [
    | inl w ↦ inl (
      (text_eq_iff cluster_path trackers.wildcard).0 w,
      rw w (refl, refl, refl),
      rw w (refl, refl, refl),
    )
    | inr n ↦ inr (
      λ same. ground (arith, text_eq_iff cluster_path trackers.wildcard),
      rw n (refl, refl, refl),
      rw n (refl, refl, refl),
    )
  ]
