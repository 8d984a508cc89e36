-- ===== src/Controllerutil.antt =====
-- internal/controllerutil/predicate/predicate.go: the filters of a controller's events.
use init_agent.Base.{Bool, Option, none, some, ◌||◌, Text}
use init_agent.Go.Maps.{Map}

-- predicate.Funcs: the functions in use, with `none` for nil.
pub record Funcs (Object : Type 0) : Type 0 where
  pub create_func : Option (Object → Bool)
  pub update_func : Option (Object → Object → Bool)
  pub delete_func : Option (Object → Bool)

module _ {Object : Type 0} where
  -- `Factory`
  unfoldable pub predicate_factory : Option (Object → Bool) → Funcs Object
  predicate_factory none = record { create_func = none; update_func = none; delete_func = none }
  predicate_factory (some filter) = record {
    create_func = some (λ o. filter o);
    update_func = some (λ old new. filter old || filter new);
    delete_func = some (λ o. filter o);
  }

  -- `matches` is the method Matches of the selector.
  unfoldable pub by_labels :
      {Sel : Type 0} → (Sel → Map Text → Bool) → (Object → Map Text) → Sel → Funcs Object
  unfolding predicate_factory
  by_labels matches labels selector = predicate_factory (some (λ o. matches selector (labels o)))
