-- ===== src/Sdk/Fakes/Simple.antt =====
-- The fake clientset of one cluster, fake/clientset_generated.go, and its clients of the two types in
-- typed/initialization/v1alpha1/fake.
use init_agent.Base.{Bool, true, false, Option, none, some, List, [], ◌∷◌, Text, codes}
use init_agent.Effect.{Outcome, panicked, Action, pure, ◌>>=◌}
use init_agent.Remote.{Fetched, found, failed}
use init_agent.Sdk.Types.{InitTarget, InitTemplate, scheme_group_version}
use init_agent.Sdk.Fakes.{ListOf}
use init_agent.Sdk.Clientset.Typed.{empty_init_target, empty_init_template}

-- What a reaction to a watch returns: whether it handled the action, a watch, and an error.
abbrev pub Reacted : (V E : Type 0) → Type 0
Reacted V E = Bool × Option V × Option E

-- What it calls of the package testing of client-go: the pointers `Fk` to Fakes, the object trackers
-- `Tr`, actions `Act`, resources with group and version `Gvr`, list options `LO`, watches `V`.
-- `watch_options` is the assertion that an action is a WatchActionImpl, with its ListOptions.
pub record Tracking (Fk Tr Re Any Act Gvr LO V E W : Type 0) : Type 0 where
  pub new_object_tracker : W → Tr × W
  pub add : Tr → Any → W → Option E × W
  pub new_fake : W → Fk × W
  pub object_reaction : Tr → Re
  pub add_reactor : Fk → Text → Text → Re → W → W
  pub add_watch_reactor : Fk → Text → (Act → W → Reacted V E × W) → W → W
  pub watch_options : Act → Option LO
  pub no_options : LO
  pub get_resource : Act → Gvr
  pub get_namespace : Act → Text
  pub watch : Tr → Gvr → Text → LO → W → Fetched E V × W

pub record Clientset (Fk Tr : Type 0) : Type 0 where
  pub fake : Fk
  pub discovery : Fk
  pub tracker : Tr

-- `if err != nil { return false, nil, err }; return true, watch, nil`
abbrev watched : {V E W : Type 0} → Fetched E V × W → Reacted V E × W
watched (found v, w) = ((true, some v, none), w)
watched (failed e, w) = ((false, none, some e), w)

abbrev options_or : {LO : Type 0} → LO → Option LO → LO
options_or default none = default
options_or default (some opts) = opts

-- What follows the call of Add: an error ends the loop.
abbrev pub after_add :
    {E W : Type 0} → Option E × W → Action W E (Unit {0}) → Outcome E (Unit {0}) × W
after_add (none, w) rest = rest w
after_add (some e, w) rest = (panicked, w)

module _ {Fk Tr Re Any Act Gvr LO V E W : Type 0}
    (tracking : Tracking Fk Tr Re Any Act Gvr LO V E W) where
  -- `for _, obj := range objects { if err := o.Add(obj); err != nil { panic(err) } }`
  unfoldable pub add_each : Tr → List Any → Action W E (Unit {0})
  add_each o [] w = pure tt w
  add_each o (obj ∷ objects) w =
      let rest = add_each o objects in after_add (tracking.add o obj w) rest

  unfoldable pub react_to_watch : Tr → Act → W → Reacted V E × W
  react_to_watch o action w =
      let opts = options_or tracking.no_options (tracking.watch_options action) in
      let gvr = tracking.get_resource action in
      let ns = tracking.get_namespace action in watched (tracking.watch o gvr ns opts w)

  -- The statements behind the loop.
  unfoldable pub clientset_of : Tr → Action W E (Clientset Fk Tr)
  unfolding react_to_watch
  clientset_of o w =
      let (fake, faked) = tracking.new_fake w in
      let any = codes "*" in
      let reacting = tracking.add_reactor fake any any (tracking.object_reaction o) faked in
      pure (record { fake = fake; discovery = fake; tracker = o })
        (tracking.add_watch_reactor fake any (react_to_watch o) reacting)

  unfoldable pub new_simple_clientset : List Any → Action W E (Clientset Fk Tr)
  unfolding add_each clientset_of
  new_simple_clientset objects w =
      let (o, made) = tracking.new_object_tracker w in
      (add_each o objects >>= λ added. clientset_of o) made

-- gentype.NewFakeClientWithList for objects `T`: the Fake, the namespace, the resource and the kind
-- with their group and version, an empty object and an empty list, the copy of the metadata of a
-- list, and the items read and written. ToPointerSlice and FromPointerSlice keep the items.
pub record FakeGenType (T Fk Cl M : Type 0) : Type 0 where
  pub empty_list_meta : M
  pub new_fake_client_with_list :
      Fk
      → Text
      → (Text × Text) × Text
      → (Text × Text) × Text
      → T
      → ListOf M T
      → (ListOf M T → ListOf M T → ListOf M T)
      → (ListOf M T → List T)
      → (ListOf M T → List T → ListOf M T)
      → Cl

module _ {T M : Type 0} where
  -- `dst.ListMeta = src.ListMeta`, and the items of a list.
  abbrev copy_list_meta : ListOf M T → ListOf M T → ListOf M T
  copy_list_meta dst src = record dst { list_meta = src.list_meta }

  abbrev items_of : ListOf M T → List T
  items_of l = l.items

  abbrev with_items : ListOf M T → List T → ListOf M T
  with_items l items = record l { items = items }

module _ {Fk Cl M : Type 0} where
  unfoldable pub new_fake_init_targets : FakeGenType InitTarget Fk Cl M → Fk → Cl
  new_fake_init_targets gentype fake =
      gentype.new_fake_client_with_list fake [] (scheme_group_version, codes "inittargets")
        (scheme_group_version, codes "InitTarget") empty_init_target
        (record { list_meta = gentype.empty_list_meta; items = [] }) copy_list_meta items_of
        with_items

  unfoldable pub new_fake_init_templates : FakeGenType InitTemplate Fk Cl M → Fk → Cl
  new_fake_init_templates gentype fake =
      gentype.new_fake_client_with_list fake [] (scheme_group_version, codes "inittemplates")
        (scheme_group_version, codes "InitTemplate") empty_init_template
        (record { list_meta = gentype.empty_list_meta; items = [] }) copy_list_meta items_of
        with_items
