-- ===== src/Sdk/Clientset/Schemes.antt =====
-- The schemes of the clientsets: scheme/register.go, cluster/scheme/register.go and fake/register.go.
use init_agent.Base.{Option, none, some, List, [], ◌∷◌, Text, codes}
use init_agent.Effect.{external, Action, pure, raise}
use init_agent.Sdk.Types.{add_known_types}
use init_agent.Sdk.Clientset.{or_die}

-- AddKnownTypes, AddToGroupVersion, and AddToScheme of a SchemeBuilder, which
-- calls its functions: `S` stands for schemes.
pub record SchemeLibrary (S E : Type 0) : Type 0 where
  pub add_known_types : Text × Text → List Text → S → S
  pub add_to_group_version : Text × Text → S → S
  pub add_to_scheme : List (S → Option E × S) → S → Option E × S

module _ {S E : Type 0} (library : SchemeLibrary S E) where
  -- The one function of each SchemeBuilder, which is AddToScheme of the API types.
  add_api_types : S → Option E × S
  unfolding add_known_types
  add_api_types = library.add_to_scheme (
      (λ scheme.
        (none, add_known_types library.add_known_types library.add_to_group_version scheme))
      ∷ [])

  result_of : Option E × S → Action S E (Unit {0})
  result_of (none, scheme) w = pure tt scheme
  result_of (some e, scheme) w = raise (external e) scheme

  -- `init` of a package whose scheme is `scheme`: utilruntime.Must panics on an error.
  unfoldable pub init_scheme : Action S E (Unit {0})
  unfolding add_api_types result_of or_die
  init_scheme scheme =
      let registered = library.add_to_group_version ([], codes "v1") scheme in
      or_die (result_of (library.add_to_scheme (add_api_types ∷ []) registered)) registered
