-- ===== src/Examples/Doubles.antt =====
-- Stand-ins for the servers and the libraries: an object is its kind, a template its text, an
-- error a number, and the state of the server the number of requests that it granted.
use init_agent.Base.{ℕ, suc, none, some, [], ◌∷◌, Text, codes, text_eq, ◌==◌, length, if◌then◌else◌}
use init_agent.Go.Sort.{insertion_sort, IsSort}
use init_agent.Go.Sort.Laws.{insertion_sort-IsSorted, insertion_sort-count_if}
use init_agent.Kcp.Rest.{RestConfig}
use init_agent.Sdk.Types.{ObjectMeta, InitTarget}
use init_agent.Remote.{Remote, LogicalCluster, found, failed, document, broken}
use init_agent.TargetController.{Services}
use init_agent.InitController.{Reconciler}
use init_agent.Effect.{World}

abbrev pub widget : Text
widget = codes "Widget.example.org"

abbrev pub namespace : Text
namespace = codes "Namespace"

abbrev pub kcp_initializer : Text
kcp_initializer = codes "root:team"

abbrev pub meta_of : Text → ObjectMeta
meta_of name = record {
  name = name;
  uid = name;
  deletion_timestamp = none;
  labels = [];
  annotations = [];
}

abbrev pub target : InitTarget
target = record {
  meta = meta_of (codes "prod");
  spec = record {
    workspace_type_reference = record { path = []; name = codes "team" };
    sources = record { template = some (record { name = codes "base" }) } ∷ [];
  };
}

abbrev pub lc : LogicalCluster
lc = record {
  meta = record (meta_of (codes "cluster")) {
    annotations = (codes "kcp.io/path", codes "root:team:ws") ∷ [];
  };
  initializers = codes "other" ∷ kcp_initializer ∷ [];
}

abbrev pub double : Remote Text ℕ ℕ Text
double = record {
  is_not_found = λ e. e == 1;
  is_already_exists = λ e. e == 2;
  is_no_kind_match = λ e. e == 3;
  is_eof = λ e. e == 0;
  unicode_to_lower = λ c. c;
  group_kind = λ obj. obj;
  len = λ obj. length obj;
  large_sort = insertion_sort;
  get_cluster = λ cluster s. (none, s);
  get_logical_cluster = λ cluster name s. (found lc, s);
  create = λ cluster obj s. if text_eq obj widget then (some 3, s) else (none, suc s);
  patch_status = λ cluster old new s. (none, suc s);
  new_client = λ cluster s. (none, s);
  get_template = λ cluster name s.
      (found (record { meta = meta_of name; spec = record { template = codes "Namespace" } }), s);
  add_to_scheme = none;
  parse_template = λ text. found text;
  execute = λ tpl context s. (found tpl, s);
  decode = λ text. document text ∷ broken 0 ∷ [];
  cluster_from = λ meta. codes "cluster";
  path_string = λ path. path;
  path_annotation_key = codes "kcp.io/path";
}

pub double-IsSort : IsSort double.large_sort
double-IsSort = record {
  permutes = λ key p l. insertion_sort-count_if key p l;
  sorts = λ key l. insertion_sort-IsSorted key l;
}

abbrev pub start : World Text ℕ ℕ
start = record { server = 0; calls = [] }

abbrev pub reconciler : Reconciler ℕ ℕ
reconciler = record { target_provider = λ s. (found target, s); initializer = kcp_initializer }

-- A multicluster manager is a number.
abbrev pub services : Services ℕ ℕ ℕ ℕ
services = record {
  is_not_found = λ e. e == 1;
  get_target = λ name s. if text_eq name (codes "prod") then (found target, s) else (failed 1, s);
  cluster_from = λ meta. codes "cluster";
  add_tenancy = none;
  add_core = none;
  new_client = λ cfg s. (none, s);
  get_workspace_type = λ cluster name s. (found (meta_of name), suc s);
  initializer_for_type = λ meta. meta.name;
  new_provider = λ cfg name s. (none, s);
  new_manager = λ cfg s. (found 7, s);
  new_init_controller = λ mgr target_provider initializer s. (none, s);
}

abbrev pub cfg : RestConfig ℕ
cfg = record { host = codes "https://kcp/"; others = 5 }
