-- ===== src/Sdk/Fakes/Clientset.antt =====
-- The fake clientset for all clusters, cluster/fake/clientset.go.
use init_agent.Base.{List, Text, codes}
use init_agent.Effect.{Outcome, ok, ◌&>>=◌}
use init_agent.Sdk.Fakes.{scoped}
use init_agent.Sdk.Fakes.Group.{GroupClusterClient, GroupClient}

-- What it calls of kcptesting: the pointers `Fk` to Fakes, the object trackers `Tr` and the trackers
-- `STr` of one cluster, reactions `Re` and `WRe` for watches, objects `Any`. What AddAll returns is
-- not read.
pub record Trackers (Fk Tr STr Re WRe Any W : Type 0) : Type 0 where
  pub wildcard : Text
  pub new_object_tracker : W → Tr × W
  pub add_all : Tr → List Any → W → W
  pub new_fake : W → Fk × W
  pub object_reaction : Tr → Re
  pub watch_reaction : Tr → WRe
  pub add_reactor : Fk → Text → Text → Re → W → W
  pub add_watch_reactor : Fk → Text → WRe → W → W
  pub tracker_of : Tr → Text → STr

-- The fields of kcpfakediscovery.FakeDiscovery that are set.
pub record FakeDiscovery (Fk : Type 0) : Type 0 where
  pub fake : Fk
  pub cluster_path : Text

pub record ClusterClientset (Fk Tr : Type 0) : Type 0 where
  pub fake : Fk
  pub discovery : FakeDiscovery Fk
  pub tracker : Tr

pub record Clientset (Fk STr : Type 0) : Type 0 where
  pub fake : Fk
  pub discovery : FakeDiscovery Fk
  pub tracker : STr
  pub cluster_path : Text

module _ {Fk Tr STr Re WRe Any W : Type 0} (trackers : Trackers Fk Tr STr Re WRe Any W) where
  unfoldable pub new_simple_clientset : List Any → W → ClusterClientset Fk Tr × W
  new_simple_clientset objects w =
      let (o, made) = trackers.new_object_tracker w in
      let filled = trackers.add_all o objects made in
      let (fake, faked) = trackers.new_fake filled in
      let any = codes "*" in
      let reacting = trackers.add_reactor fake any any (trackers.object_reaction o) faked in
      (
        record {
          fake = fake;
          discovery = record { fake = fake; cluster_path = trackers.wildcard };
          tracker = o;
        },
        trackers.add_watch_reactor fake any (trackers.watch_reaction o) reacting,
      )

module _ {Fk Tr STr Re WRe Any E W : Type 0} (trackers : Trackers Fk Tr STr Re WRe Any W) where
  -- Cluster of the clientset.
  unfoldable pub clientset_cluster : ClusterClientset Fk Tr → Text → Outcome E (Clientset Fk STr)
  unfolding scoped
  clientset_cluster c cluster_path = scoped trackers.wildcard cluster_path &>>= λ path. ok (record {
    fake = c.fake;
    discovery = record { fake = c.fake; cluster_path = path };
    tracker = trackers.tracker_of c.tracker path;
    cluster_path = path;
  })

-- InitializationV1alpha1 of both clientsets.
module _ {Fk Tr : Type 0} where
  unfoldable pub cluster_initialization_v1alpha1 : ClusterClientset Fk Tr → GroupClusterClient Fk
  cluster_initialization_v1alpha1 c = record { fake = c.fake }

module _ {Fk STr : Type 0} where
  unfoldable pub initialization_v1alpha1 : Clientset Fk STr → GroupClient Fk
  initialization_v1alpha1 c = record { fake = c.fake; cluster_path = c.cluster_path }
