-- ===== src/Examples/Clusters.antt =====
-- A cluster that holds objects: it grants each creation but that of an object it has, which is an
-- AlreadyExists error, the number 2. Objects and errors are those of Examples/Doubles.
use init_agent.Base.{
  ℕ, ◌≡◌, refl, ap, true, false, none, some, List, [], ◌∷◌, Text, codes, text_eq, text_eq_iff,
  text_eq_refl, ◌==◌, length, arith, if◌then◌else◌,
}
use init_agent.Go.Slices.{contains}
use init_agent.Go.Maps.{lookup}
use init_agent.Go.Sort.{insertion_sort, IsSort}
use init_agent.Go.Sort.Laws.{insertion_sort-IsSorted, insertion_sort-count_if}
use init_agent.Effect.{World, ok, patched}
use init_agent.Remote.{Remote, found, document, broken}
use init_agent.Manifest.{object_weight, sort_objects_by_hierarchy}
use init_agent.Manifest.Apply.{apply}
use init_agent.Manifest.Apply.Api.{IsApi, Holds, among}
use init_agent.Manifest.Apply.Objects.{apply-Holds}
use init_agent.Manifest.Apply.Retries.{
  Attempts, untried, elsewhere, attempt, Settled, Attempts-Settled,
}
use init_agent.Source.{manifests}
use init_agent.InitController.{Reconciler, done, reconcile_request}
use init_agent.InitController.Removal.{without}
use init_agent.InitController.Completion.{Serves, reconcile_request-completes}
use init_agent.InitController.Held.{Undisturbed, SourcesHeld, reconcile_request-held}
use init_agent.InitController.Success.{Succeeded}
use init_agent.Kcp.Annotations.{cluster_path_from_object}
use init_agent.Examples.Doubles.{meta_of, lc, target, kcp_initializer, widget, namespace}

abbrev pub holding : Remote Text ℕ (List Text) Text
holding = record {
  is_not_found = λ e. e == 1;
  is_already_exists = λ e. e == 2;
  is_no_kind_match = λ e. e == 3;
  is_eof = λ e. e == 0;
  unicode_to_lower = λ c. c;
  group_kind = λ obj. obj;
  len = λ obj. length obj;
  large_sort = insertion_sort;
  get_cluster = λ cluster s. (none, s);
  get_logical_cluster = λ cluster name s. (found lc, s);
  create = λ cluster obj s. if contains s obj then (some 2, s) else (none, obj ∷ s);
  patch_status = λ cluster old new s. (none, s);
  new_client = λ cluster s. (none, s);
  get_template = λ cluster name s.
      (found (record { meta = meta_of name; spec = record { template = codes "Namespace" } }), s);
  add_to_scheme = none;
  parse_template = λ text. found text;
  execute = λ tpl context s. (found tpl, s);
  decode = λ text. document text ∷ broken 0 ∷ [];
  cluster_from = λ meta. codes "cluster";
  path_string = λ path. path;
  path_annotation_key = codes "kcp.io/path";
}

holding-IsSort : IsSort holding.large_sort
holding-IsSort = record {
  permutes = λ key p l. insertion_sort-count_if key p l;
  sorts = λ key l. insertion_sort-IsSorted key l;
}

abbrev pub cluster : Text
cluster = codes "cluster"

contains-congruent : (s : List Text) (x y : Text) → text_eq x y ≡ true → contains s x ≡ contains s y
contains-congruent s x y e = ap (contains s) ((text_eq_iff x y).0 e)

holding-IsApi : IsApi holding cluster text_eq contains
unfolding contains
holding-IsApi = record {
  itself = text_eq_refl;
  congruent = contains-congruent;
  granted = λ obj x s e. ground arith;
  refused = λ obj x s e h. ground arith;
  there = λ obj s e h old. ground arith;
  not_again = λ obj s h. (2, rw h, refl);
}

abbrev pub start : World Text ℕ (List Text)
start = record { server = widget ∷ []; calls = [] }

abbrev objects : List Text
objects = widget ∷ namespace ∷ []

apply-Holds_example :
    let (o, w') = apply holding cluster objects start in
    let (o', w'') = apply holding cluster objects w' in
    Holds text_eq contains (sort_objects_by_hierarchy holding objects) start.server w'.server o
    × (o ≡ ok false
        → ((x : Text)
            → contains w'.server x
              ≡ (if among text_eq objects x then true else contains start.server x))
          × (o' ≡ ok false)
          × ((x : Text) → contains w''.server x ≡ contains w'.server x))
apply-Holds_example = apply-Holds holding cluster holding-IsApi holding-IsSort objects start

-- A call of Apply, another object that appears, and a second call.
abbrev between : World Text ℕ (List Text)
between = record { server = codes "Secret" ∷ namespace ∷ widget ∷ []; calls = [] }

among-kept :
    (x : Text)
    → among text_eq objects x ≡ true
    → contains between.server x ≡ contains (namespace ∷ widget ∷ []) x
unfolding contains
among-kept x k = ground arith

two-Attempts :
    Attempts holding cluster text_eq contains objects start
      (apply holding cluster objects between).1
      true
unfolding apply sort_objects_by_hierarchy object_weight text_eq contains
two-Attempts = attempt (elsewhere {w' = between} (attempt untried) among-kept)

Attempts-Settled_example :
    let w = (apply holding cluster objects between).1 in
    Settled holding cluster text_eq contains objects start w true
    × (true ≡ true
        → ((x : Text) → among text_eq objects x ≡ true → contains w.server x ≡ true)
          × ((apply holding cluster objects w).0 ≡ ok false))
Attempts-Settled_example =
    Attempts-Settled holding cluster holding-IsApi holding-IsSort objects two-Attempts

abbrev reconciler : Reconciler ℕ (List Text)
reconciler = record { target_provider = λ s. (found target, s); initializer = kcp_initializer }

abbrev pub Any : List Text → Type 0
Any s = Unit

pub holding-Serves : Serves holding Any reconciler cluster lc target
unfolding contains text_eq manifests lookup
holding-Serves = record {
  scheme = refl;
  provides = λ s p. (refl, tt);
  sources = (
    (
      record { name = codes "base" },
      refl,
      record {
        client = λ s p. (refl, tt);
        template = λ s p. (
          record { meta = meta_of (codes "base"); spec = record { template = namespace } },
          namespace,
          refl,
          refl,
          record { from = λ w q. (namespace ∷ [], refl, tt, tt) },
          tt,
        );
      },
    ),
    tt,
  );
  creates = λ obj s p. (ground arith, tt);
  patches = λ s p. (refl, tt);
  initializing = refl;
}

reconcile_request-completes_example :
    (w' : World Text ℕ (List Text)) × (v : World Text ℕ (List Text)) × (reconcile_request holding
        reconciler
        (record { cluster_name = cluster; name = lc.meta.name })
        start
      ≡ (ok done, w'))
    × (w'.calls ≡ patched (without kcp_initializer lc.initializers) none ∷ v.calls)
unfolding lookup text_eq cluster_path_from_object
reconcile_request-completes_example =
    reconcile_request-completes holding Any reconciler cluster lc target holding-Serves refl
      lc.meta.name refl (λ s p. (refl, tt)) (λ s p. (refl, tt)) start tt

holding-Undisturbed : Undisturbed holding text_eq contains
holding-Undisturbed = record {
  client = λ home x s k. k;
  template = λ home name x s k. k;
  execution = λ tpl values x s k. k;
}

abbrev reached : World Text ℕ (List Text)
unfolding lookup text_eq cluster_path_from_object
reached =
    (reconcile_request holding reconciler (record { cluster_name = cluster; name = lc.meta.name })
      start).1

reconcile_request-held_example :
    (run : Succeeded holding reconciler cluster lc start reached false) × SourcesHeld holding
      text_eq contains cluster run.target lc run.ended.server run.target.spec.sources run.begun
      run.ended
unfolding lookup text_eq cluster_path_from_object
reconcile_request-held_example =
    reconcile_request-held holding cluster holding-IsApi holding-IsSort holding-Undisturbed
      reconciler lc.meta.name start lc start.server start.server refl refl refl
      holding-Serves.initializing (λ i. ((reconcile_request-completes_example.2 i).0, reached))
