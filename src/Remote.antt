-- ===== src/Remote.antt =====
-- What the init controller uses of code outside the repository: the clients of controller-runtime
-- and the server behind them, the template engine, the YAML decoder, logicalcluster and kcp's
-- constants. A reading request returns the server too, since others change it meanwhile.
use init_agent.Base.{ℕ, Bool, Option, List, Text, Ordering, ◌≡◌, refl, ◌⊎◌, inl, inr}
use init_agent.Sdk.Types.{ObjectMeta, InitTemplate}

-- The part of kcp's LogicalCluster in use.
pub record LogicalCluster : Type 0 where
  pub meta : ObjectMeta
  pub initializers : List Text

-- What `client.Get` leaves behind.
pub data Fetched (E A : Type 0) : Type 0 where
  found : A → Fetched E A
  failed : E → Fetched E A

pub Fetched-cases :
    {E A : Type 0} (f : Fetched E A) → ((a : A) × (f ≡ found a)) ⊎ ((e : E) × (f ≡ failed e))
Fetched-cases (found a) = inl (a, refl)
Fetched-cases (failed e) = inr (e, refl)

-- What one call of the decoder's `Decode` returns, before it returns io.EOF for good.
pub data Decoded (Object E : Type 0) : Type 0 where
  document : Object → Decoded Object E
  broken : E → Decoded Object E

-- `Object` stands for unstructured.Unstructured, `E` for the errors of libraries, `S` for the
-- states of the servers and of what else this code reads, such as its source of random numbers,
-- `Tpl` for parsed templates.
pub record Remote (Object E S Tpl : Type 0) : Type 0 where
  -- apierrors.IsNotFound, apierrors.IsAlreadyExists, errors.Is with NoKindMatchError and io.EOF
  pub is_not_found : E → Bool
  pub is_already_exists : E → Bool
  pub is_no_kind_match : E → Bool
  pub is_eof : E → Bool
  -- unicode.ToLower
  pub unicode_to_lower : ℕ → ℕ
  -- obj.GroupVersionKind().GroupKind().String() and len(obj.Object)
  pub group_kind : Object → Text
  pub len : Object → ℕ
  -- the part of slices.SortFunc for more than twelve elements, with its comparison
  pub large_sort : (Object → Object → Ordering) → List Object → List Object
  -- manager.GetCluster and the clients of a cluster
  pub get_cluster : Text → S → Option E × S
  pub get_logical_cluster : Text → Text → S → Fetched E LogicalCluster × S
  pub create : Text → Object → S → Option E × S
  pub patch_status : Text → LogicalCluster → LogicalCluster → S → Option E × S
  -- ClusterClient.Cluster, and Get of an InitTemplate through it
  pub new_client : Text → S → Option E × S
  pub get_template : Text → Text → S → Fetched E InitTemplate × S
  -- AddToScheme
  pub add_to_scheme : Option E
  -- template.New("template").Funcs(sprig.TxtFuncMap()).Parse, and Execute, whose result also depends
  -- on the state, since some functions of sprig are random
  pub parse_template : Text → Fetched E Tpl
  pub execute : Tpl → Text × Text → S → Fetched E Text × S
  -- yamlutil.NewYAMLOrJSONDecoder: the results of Decode up to the end of the input
  pub decode : Text → List (Decoded Object E)
  -- logicalcluster.From(obj).String(), NewPath(path).String(), LogicalClusterPathAnnotationKey
  pub cluster_from : ObjectMeta → Text
  pub path_string : Text → Text
  pub path_annotation_key : Text
