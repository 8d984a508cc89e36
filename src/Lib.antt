-- ===== src/Lib.antt =====
-- The kcp init-agent: an agent that initializes new workspaces of kcp. An InitTarget names a
-- WorkspaceType and sources of manifests; for each InitTarget the agent runs a controller that
-- watches the logical clusters of that type, applies the rendered manifests to each new one, and
-- then removes its initializer, which opens the cluster for use.
--
-- Parts and files, from the inside out:
-- - Go and its children: what the code uses of Go's standard library (Strings, Slices, Maps, Sort)
--   and the values of contexts (Context: internal/log/context.go, internal/initialize/context.go).
-- - Kcp/Rest and Kcp/Annotations: internal/kcp, the hosts of REST configurations and the names and
--   paths of clusters.
-- - Effect: errors wrapped at a site of the code, outcomes (a value, an error or a panic) and
--   actions that pass a state on; a run of the init controller logs each request that changes the
--   server. Effect/Ends has rules for runs that end in a value, Effect/Errors
--   for the errors of runs. Remote: all that the init
--   controller uses of code outside the repository, as one record of functions; a request, and the
--   execution of a template, take and return the state of that code.
-- - Sdk/Types: sdk/apis/initialization/v1alpha1. Sdk/Informers: the two informer factories of
--   sdk/informers/externalversions/factory.go, with Start as `start`, InformerFor as `informer_for`
--   and so on; goroutines are entries of a list, and Agree puts the two side by side.
--   Sdk/ApplyConfiguration: the builders of
--   sdk/applyconfiguration/initialization/v1alpha1, with those of an InitTemplate in
--   Sdk/TemplateConfiguration. Sdk/Listers: sdk/listers/initialization/v1alpha1. Sdk/Typed: the
--   informers of the two types and ForResource, of sdk/informers/externalversions. Sdk/DeepCopy:
--   zz_generated.deepcopy.go of the API types, on a memory where a pointer is an address.
--   Sdk/Fakes: the fake clients of
--   sdk/clientset/versioned/cluster/typed/initialization/v1alpha1/fake, with the clients of the
--   group in Group, the clientset of cluster/fake in Clientset and that of fake in Simple.
--   Sdk/Clientset: the constructors of the clientsets of sdk/clientset/versioned, with the clients
--   of the two types in Typed and the schemes in Schemes. ForKind is in
--   Sdk/TemplateConfiguration/Kinds.
-- - Manifest: internal/manifest, with SortObjectsByHierarchy in Manifest.antt, ParseYAML in Yaml
--   and Apply in Apply; Apply/Api and Apply/Objects see it from the objects that the cluster
--   holds, and Apply/Retries over repeated calls.
-- - Source: internal/initialize/source, from an InitSource to manifests; Source/Errors on its ends.
-- - InitController: internal/controller/initcontroller/reconciler.go. `reconcile_request` is
--   Reconcile, `reconcile` and `remove_initializer` are the methods of those names; Completion
--   states what the servers must grant for a request to complete, Results has every end of Reconcile
--   and Errors the errors of its steps, and Held sees a request from the
--   objects that the cluster holds.
-- - TargetController: internal/controller/targetcontroller/controller.go. `reconcile_target` is
--   Reconcile, `State.ctrl_cancels` the map of cancel funcs; Events has the goroutines, and
--   Reachable the steps of the whole controller. Ends has every end of ensureInitController;
--   Grants and Restart say when a controller is started, and started again after its manager
--   failed. Phases is the abstract view of the controller, a phase for each InitTarget, with the
--   moves that it allows.
-- - Log, Cmd/Options and Cmd/Main: internal/log/zap.go, cmd/init-agent/options.go and main.go, with
--   Add of the target controller; Cmd/Main/Started goes from the flags on; Controllerutil:
--   internal/controllerutil/predicate.
-- - Examples: the properties at concrete inputs.
--
-- The target controller starts init controllers through the closure newInitController of main.go,
-- which Agent joins to Create of the init controller (InitController/Create). An init controller
-- asks its target provider for the InitTarget, the source factory for each source and the applier
-- to create the manifests.
--
-- No loop runs on fuel: all recurse on lists. slices.SortFunc is its insertion sort up to twelve
-- elements, and beyond a parameter that is given the comparison and has the documented laws, since
-- the order of equal elements is open. The target controller has one worker, so its reconciliations do not overlap.
-- cleanupController and the cleanup goroutines hold its lock; the start of a controller does not,
-- so the steps of Reachable let goroutines run between its test of the table and its new entry.
--
-- A template is executed in the state of the server, and moves it on, since sprig has functions with
-- random results: two renderings of one source may differ.
--
-- Not modelled: log lines; pflag.Parse, a parameter; accessors that only return a field; the
-- parsers of the apply configurations, which are data of a library, and the codecs and parameter
-- codecs beside the schemes; the helpers of tests, which run processes.
pub mod Base
pub mod Go
pub mod Kcp
pub mod Effect
pub mod Remote
pub mod Sdk
pub mod Manifest
pub mod Source
pub mod Controllerutil
pub mod Cmd
pub mod Log
pub mod InitController
pub mod TargetController
pub mod Agent
mod Examples
