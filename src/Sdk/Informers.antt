-- ===== src/Sdk/Informers.antt =====
-- sdk/informers/externalversions/factory.go: the shared informer factories, that of one
-- cluster in Scoped. The type of an object,
-- a reflect.Type, is its name. A started goroutine is an entry of `runs`; `wg` counts those that
-- have not returned. Each method holds the factory's lock, so it runs without interruption.
pub mod Laws
pub mod History
pub mod Stopped
pub mod Transform
pub mod Agree
pub mod Scoped
use init_agent.Base.{
  ℕ, zero, suc, ◌-◌, ◌+◌, Bool, true, false, not, Option, none, some, List, [], ◌∷◌, Text,
  if◌then◌else◌,
}
use init_agent.Go.Maps.{Map, lookup, insert}

-- `C` stands for clients, `I` for informers, `D` for durations, `W` for tweaks of list options and
-- `X` for transforms.
pub record SharedInformerOptions (D W X : Type 0) : Type 0 where
  pub custom_resync : Map D
  pub tweak_list_options : Option W
  pub transform : Option X
  pub namespace : Text

abbrev pub SharedInformerOption : Type 0 → Type 0 → Type 0 → Type 0
SharedInformerOption D W X = SharedInformerOptions D W X → SharedInformerOptions D W X

pub record SharedInformerFactory (C I D W X : Type 0) : Type 0 where
  pub client : C
  pub tweak_list_options : Option W
  pub default_resync : D
  pub custom_resync : Map D
  pub transform : Option X
  pub informers : Map I
  pub started_informers : Map Bool
  pub wg : ℕ
  pub shutting_down : Bool
  pub runs : List (Text × I)

-- A read of a `map[reflect.Type]bool`: false without an entry.
abbrev pub is_true : Option Bool → Bool
is_true none = false
is_true (some b) = b

-- `opts.customResync[reflect.TypeOf(k)] = v` for each entry.
put_all : {D : Type 0} → Map D → Map D → Map D
put_all [] m = m
put_all ((k, v) ∷ entries) m = put_all entries (insert k v m)

unfoldable pub or_default : {D : Type 0} → D → Option D → D
or_default d none = d
or_default d (some r) = r

module _ {D W X : Type 0} where
  unfoldable pub with_custom_resync_config : Map D → SharedInformerOption D W X
  unfolding put_all
  with_custom_resync_config config opts = record opts {
    custom_resync = put_all config opts.custom_resync;
  }

  unfoldable pub with_tweak_list_options : W → SharedInformerOption D W X
  with_tweak_list_options tweak opts = record opts { tweak_list_options = some tweak }

  unfoldable pub with_transform : X → SharedInformerOption D W X
  with_transform transform opts = record opts { transform = some transform }

  unfoldable pub with_namespace : Text → SharedInformerOption D W X
  with_namespace namespace opts = record opts { namespace = namespace }

  -- `for _, opt := range options { opts = opt(opts) }`
  unfoldable pub apply_options :
      List (SharedInformerOption D W X) → SharedInformerOptions D W X → SharedInformerOptions D W X
  apply_options [] opts = opts
  apply_options (opt ∷ options) opts = apply_options options (opt opts)

  abbrev pub no_options : SharedInformerOptions D W X
  no_options = record {
    custom_resync = [];
    tweak_list_options = none;
    transform = none;
    namespace = [];
  }

module _ {C I D W X : Type 0} where
  unfoldable pub new_shared_informer_factory_with_options :
      C → D → List (SharedInformerOption D W X) → SharedInformerFactory C I D W X
  unfolding apply_options
  new_shared_informer_factory_with_options client default_resync options =
      let opts = apply_options options no_options in
      record {
        client = client;
        tweak_list_options = opts.tweak_list_options;
        default_resync = default_resync;
        custom_resync = opts.custom_resync;
        transform = opts.transform;
        informers = [];
        started_informers = [];
        wg = 0;
        shutting_down = false;
        runs = [];
      }

  -- The constructor without options.
  unfoldable pub new_shared_informer_factory : C → D → SharedInformerFactory C I D W X
  unfolding new_shared_informer_factory_with_options
  new_shared_informer_factory client default_resync =
      new_shared_informer_factory_with_options client default_resync []

  -- The body of the loop of Start.
  unfoldable pub start_one :
      Text → I → SharedInformerFactory C I D W X → SharedInformerFactory C I D W X
  unfolding lookup insert
  start_one type informer f = if is_true (lookup type f.started_informers) then f else record f {
    wg = suc f.wg;
    runs = (type, informer) ∷ f.runs;
    started_informers = insert type true f.started_informers;
  }

  unfoldable pub start_all :
      Map I → SharedInformerFactory C I D W X → SharedInformerFactory C I D W X
  start_all [] f = f
  start_all ((type, informer) ∷ informers) f = start_all informers (start_one type informer f)

  unfoldable pub start : SharedInformerFactory C I D W X → SharedInformerFactory C I D W X
  unfolding start_all start_one
  start f = if f.shutting_down then f else start_all f.informers f

  -- Shutdown up to its wait, and whether the wait is over.
  unfoldable pub shutdown : SharedInformerFactory C I D W X → SharedInformerFactory C I D W X
  shutdown f = record f { shutting_down = true }

  unfoldable pub shutdown_returns : SharedInformerFactory C I D W X → Bool
  shutdown_returns f = elim f.wg [ zero ↦ true | suc n ↦ false ]

  -- `defer f.wg.Done()` of a goroutine whose informer has stopped.
  unfoldable pub run_returned : SharedInformerFactory C I D W X → SharedInformerFactory C I D W X
  run_returned f = record f { wg = f.wg - 1 }

  -- The branches of InformerFor on the map of informers.
  unfoldable pub informer_for_entry :
      Option I
      → Text
      → (C → D → I)
      → SharedInformerFactory C I D W X
      → I × SharedInformerFactory C I D W X
  unfolding or_default
  informer_for_entry (some informer) type new f = (informer, f)
  informer_for_entry none type new f =
      let informer = new f.client (or_default f.default_resync (lookup type f.custom_resync)) in
      (informer, record f { informers = insert type informer f.informers })

  unfoldable pub informer_for :
      Text → (C → D → I) → SharedInformerFactory C I D W X → I × SharedInformerFactory C I D W X
  unfolding informer_for_entry
  informer_for type new f = informer_for_entry (lookup type f.informers) type new f

-- WaitForCacheSync: the informers that are started, with whether their caches synced before the
-- stop, which is what `synced` tells.
unfoldable pub sync_all : {I : Type 0} → (I → Bool) → Map Bool → Map I → Map Bool
sync_all synced started [] = []
sync_all synced started ((type, informer) ∷ informers) =
    let rest = sync_all synced started informers in
    if is_true (lookup type started) then (type, synced informer) ∷ rest else rest

module _ {C I D W X : Type 0} where
  unfoldable pub wait_for_cache_sync : (I → Bool) → SharedInformerFactory C I D W X → Map Bool
  unfolding sync_all
  wait_for_cache_sync synced f = sync_all synced f.started_informers f.informers
