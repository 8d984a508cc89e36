-- ===== src/Sdk/Listers.antt =====
-- sdk/listers/initialization/v1alpha1: reading the objects of an indexer, across workspaces, in
-- one workspace, or with keys without a workspace.
pub mod Targets
pub mod Templates
use init_agent.Base.{Option, none, some, List, [], ◌∷◌, ◌++◌, Text}
use init_agent.Remote.{Fetched, found, failed}

-- What the listers use of cache.Indexer and of the caches of client-go and kcp: the states `Ix` of
-- an indexer, GetByKey, the objects that ListAll and ListAllByCluster hand to their callback, in
-- that order, with their error, and ToClusterAwareKey for an empty namespace. `added` is the
-- state after an object was stored under a key.
pub record Indexer (Ix Sel Object E : Type 0) : Type 0 where
  pub added : Text → Object → Ix → Ix
  pub get_by_key : Ix → Text → Fetched E (Option Object)
  pub list_all : Ix → Sel → List Object × Option E
  pub list_all_by_cluster : Ix → Text → Sel → List Object × Option E
  pub to_cluster_aware_key : Text → Text → Text

-- The results of Get: an object, the error of the indexer, or NewNotFound with its two arguments.
pub data Got (Object E : Type 0) : Type 0 where
  got : Object → Got Object E
  get_failed : E → Got Object E
  not_found : Text → Text → Got Object E

module _ {Object : Type 0} where
  -- `ret = append(ret, m.(…))` for each object that the callback is given.
  unfoldable pub collected : List Object → List Object → List Object
  collected ret [] = ret
  collected ret (m ∷ objects) = collected (ret ++ m ∷ []) objects

  unfoldable pub returned : {E : Type 0} → List Object × Option E → List Object × Option E
  unfolding collected
  returned (objects, e) = (collected [] objects, e)

  -- What Get makes of the answer of GetByKey.
  unfoldable pub got_of : {E : Type 0} → Text → Text → Fetched E (Option Object) → Got Object E
  got_of resource name (failed e) = get_failed e
  got_of resource name (found none) = not_found resource name
  got_of resource name (found (some obj)) = got obj
