-- ===== src/Manifest/Apply.antt =====
-- internal/manifest/applier.go: creating the objects of one source in a cluster.
pub mod Laws
pub mod Quiet
pub mod Ends
pub mod Api
pub mod Objects
pub mod Parts
pub mod Retries
use init_agent.Base.{Bool, true, false, not, Option, none, some, List, [], ◌∷◌, Text, if◌then◌else◌}
use init_agent.Effect.{Outcome, ok, err, external, Run, created, request, ◌>>=◌, pure, raise}
use init_agent.Remote.{Remote}
use init_agent.Manifest.{sort_objects_by_hierarchy}

module _ {Object E S Tpl : Type 0} (remote : Remote Object E S Tpl) where
  -- `if !apierrors.IsAlreadyExists(err) { return err }`
  abbrev pub unless_exists : Option E → Option E
  unless_exists none = none
  unless_exists (some e) = if remote.is_already_exists e then none else some e

  unfoldable pub apply_object : Text → Object → Run Object E S (Option E)
  apply_object cluster obj = do
    result ← request (remote.create cluster obj) (created obj)
    pure (unless_exists result)

  -- `if err != nil { … }` in the loop of Apply, before the rest of the loop.
  proceed : Run Object E S Bool → Option E → Run Object E S Bool
  proceed rest none = rest
  proceed rest (some e) = if remote.is_no_kind_match e then pure true else raise (external e)

  -- The loop of Apply; its result is `requeue`.
  unfoldable pub apply_objects : Text → List Object → Run Object E S Bool
  unfolding apply_object proceed
  apply_objects cluster [] = pure false
  apply_objects cluster (obj ∷ objs) = do
    result ← apply_object cluster obj
    proceed (apply_objects cluster objs) result

  unfoldable pub apply : Text → List Object → Run Object E S Bool
  unfolding apply_objects
  apply cluster objs = apply_objects cluster (sort_objects_by_hierarchy remote objs)
