-- ===== src/Sdk/Fakes.antt =====
-- The fake clients of sdk/clientset/versioned/cluster/typed/initialization/v1alpha1/fake: what their
-- methods make of an action and of its answer. The struct of a client is the path of its cluster;
-- the Fake that it shares is the state `W`.
pub mod Targets
pub mod Templates
pub mod Group
pub mod Clientset
pub mod Simple
pub mod Filled
pub mod Scoping
pub mod Laws
use init_agent.Base.{Bool, Option, none, some, List, [], ◌∷◌, ◌++◌, Text, text_eq, if◌then◌else◌}
use init_agent.Go.Maps.{Map}
use init_agent.Effect.{Error, external, Outcome, ok, panicked}
use init_agent.Remote.{Fetched, found, failed}

-- The package kcptesting and what else a fake client calls, for objects `T` with configurations
-- `Cfg`: `Act` stands for actions, `Any` for runtime objects, `V` for watches, `M` for the metadata
-- of lists, `LO` for list options, `Sel` for selectors, `DO` for delete options, `Pt` for types of
-- patches, `B` for byte slices. `Obj` and `Lst` are the type assertions to an object and to a list,
-- which a value of another type fails.
pub record ListOf (M T : Type 0) : Type 0 where
  pub list_meta : M
  pub items : List T

pub record Testing (T Cfg Act Any V M LO Sel DO Pt B E W : Type 0) : Type 0 where
  pub wildcard : Text
  pub list_action : Text → Text → Text → LO → Act
  pub watch_action : Text → Text → LO → Act
  pub create_action : Text → Text → T → Act
  pub update_action : Text → Text → T → Act
  pub update_subresource_action : Text → Text → Text → T → Act
  pub delete_action : Text → Text → Text → DO → Act
  pub delete_collection_action : Text → Text → LO → Act
  pub get_action : Text → Text → Text → Act
  pub patch_subresource_action : Text → Text → Text → Pt → B → List Text → Act
  pub apply_patch_type : Pt
  -- Invokes with the default object, and InvokesWatch
  pub invokes : Act → Any → W → (Option Any × Option E) × W
  pub invokes_watch : Act → W → (Option V × Option E) × W
  pub empty_object : Any
  pub empty_list : Any
  pub as_object : Any → Option T
  pub as_list : Any → Option (ListOf M T)
  pub labels_of : T → Map Text
  -- the label selector of ExtractFromListOptions, labels.Everything and Matches
  pub label_selector : LO → Option Sel
  pub everything : Sel
  pub matches : Sel → Map Text → Bool
  -- json.Marshal
  pub marshal : Cfg → Fetched E B

-- What a method returns: a pointer and an error, or it panics.
pub data Returned (E A : Type 0) : Type 0 where
  returns : Option A → Option (Error E) → Returned E A
  panics : Returned E A

abbrev pub library_error : {E : Type 0} → Option E → Option (Error E)
library_error none = none
library_error (some e) = some (external e)

-- `obj.(*T), err`
abbrev pub asserted : {E A : Type 0} → Option A → Option E → Returned E A
asserted none e = panics
asserted (some a) e = returns (some a) (library_error e)

-- `if obj == nil { return nil, err }; return obj.(*T), err`
abbrev pub typed :
    {E A Any W : Type 0} → (Any → Option A) → (Option Any × Option E) × W → Returned E A × W
typed cast ((none, e), w) = (returns none (library_error e), w)
typed cast ((some obj, e), w) = (asserted (cast obj) e, w)

-- `_, err := c.Fake.Invokes(…)`
abbrev pub error_of : {E Any W : Type 0} → (Option Any × Option E) × W → Option E × W
error_of ((obj, e), w) = (e, w)

-- `if clusterPath == logicalcluster.Wildcard { panic(…) }`
unfoldable pub scoped : {E : Type 0} → Text → Text → Outcome E Text
scoped wildcard cluster_path = if text_eq cluster_path wildcard then panicked else ok cluster_path

-- `for _, item := range … { if label.Matches(labels.Set(item.Labels)) { append } }`
unfoldable pub matched_items : {T : Type 0} → (T → Bool) → List T → List T → List T
matched_items matches items [] = items
matched_items matches items (item ∷ rest) =
    matched_items matches (if matches item then items ++ item ∷ [] else items) rest

abbrev pub selector_or : {Sel : Type 0} → Sel → Option Sel → Sel
selector_or everything none = everything
selector_or everything (some label) = label

abbrev pub matched_list :
    {E M T : Type 0} → (T → Bool) → Option (ListOf M T) → Option E → Returned E (ListOf M T)
matched_list matches none e = panics
matched_list matches (some l) e =
    returns (some (record l { items = matched_items matches [] l.items })) (library_error e)

-- What follows the call of Invokes in List.
abbrev pub listed :
    {E M T Any W : Type 0}
    → (Any → Option (ListOf M T))
    → (T → Bool)
    → (Option Any × Option E) × W
    → Returned E (ListOf M T) × W
listed cast matches ((none, e), w) = (returns none (library_error e), w)
listed cast matches ((some obj, e), w) = (matched_list matches (cast obj) e, w)
