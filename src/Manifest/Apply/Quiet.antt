-- ===== src/Manifest/Apply/Quiet.antt =====
-- Applying manifests patches nothing.
use init_agent.Base.{Bool, Option, none, some, List, [], ◌∷◌, Text}
use init_agent.Effect.{Run}
use init_agent.Effect.Quiet.{Quiet, quiet_rules, Quiet->>=}
use init_agent.Remote.{Remote}
use init_agent.Manifest.{sort_objects_by_hierarchy}
use init_agent.Manifest.Apply.{proceed, apply_object, apply_objects, apply}

module _ {Object E S Tpl : Type 0} (remote : Remote Object E S Tpl) where
  Quiet-proceed :
      (rest : Run Object E S Bool) (result : Option E)
      → Quiet rest
      → Quiet (proceed remote rest result)
  unfolding proceed
  Quiet-proceed rest none h = h
  Quiet-proceed rest (some e) h = search quiet_rules

  Quiet-apply_object : (cluster : Text) (obj : Object) → Quiet (apply_object remote cluster obj)
  unfolding apply_object
  Quiet-apply_object cluster obj = search quiet_rules

  Quiet-apply_objects :
      (cluster : Text) (objs : List Object) → Quiet (apply_objects remote cluster objs)
  unfolding apply_objects
  Quiet-apply_objects cluster [] = search quiet_rules
  Quiet-apply_objects cluster (obj ∷ objs) =
      Quiet->>= (apply_object remote cluster obj)
        (proceed remote (apply_objects remote cluster objs)) (Quiet-apply_object cluster obj)
        (λ r.
          Quiet-proceed (apply_objects remote cluster objs) r (Quiet-apply_objects cluster objs))

  pub Quiet-apply : (cluster : Text) (objs : List Object) → Quiet (apply remote cluster objs)
  unfolding apply
  Quiet-apply cluster objs = Quiet-apply_objects cluster (sort_objects_by_hierarchy remote objs)
