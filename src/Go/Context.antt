-- ===== src/Go/Context.antt =====
-- context.Context as a chain of values, for the keys of the agent's packages: internal/log/context.go
-- and internal/initialize/context.go. Both packages declare an unexported type contextKey, so
-- their first keys differ although both are 0.
pub mod Settings
use init_agent.Base.{Bool, true, false, ◌≡◌, refl, Option, none, some, [], Text, if◌then◌else◌}

pub data Key : Type 0 where
  log_context_key cluster_context_key workspace_context_key : Key

pub data Value (L : Type 0) : Type 0 where
  logger : L → Value L
  cluster_name : Text → Value L
  workspace_path : Text → Value L

pub data Context (L : Type 0) : Type 0 where
  background : Context L
  with_value : Context L → Key → Value L → Context L

abbrev same_key : Key → Key → Bool
same_key log_context_key log_context_key = true
same_key cluster_context_key cluster_context_key = true
same_key workspace_context_key workspace_context_key = true
same_key _ _ = false

module _ {L : Type 0} where
  -- `ctx.Value(key)`
  unfoldable pub value : Context L → Key → Option (Value L)
  value background key = none
  value (with_value ctx k v) key =
      let rest = value ctx key in if same_key k key then some v else rest

  -- The type assertions, with the default for a missing value or one of another type.
  abbrev logger_or : L → Option (Value L) → L
  logger_or nop (some (logger l)) = l
  logger_or nop _ = nop

  abbrev cluster_or_empty : Option (Value L) → Text
  cluster_or_empty (some (cluster_name c)) = c
  cluster_or_empty _ = []

  abbrev path_or_none : Text → Option (Value L) → Text
  path_or_none nowhere (some (workspace_path p)) = p
  path_or_none nowhere _ = nowhere

  unfoldable pub with_log : Context L → L → Context L
  with_log ctx l = with_value ctx log_context_key (logger l)

  -- `nop` is zap.NewNop().Sugar().
  unfoldable pub from_context : L → Context L → L
  unfolding value
  from_context nop ctx = logger_or nop (value ctx log_context_key)

  unfoldable pub with_cluster_name : Context L → Text → Context L
  with_cluster_name ctx cluster = with_value ctx cluster_context_key (cluster_name cluster)

  unfoldable pub cluster_from_context : Context L → Text
  unfolding value
  cluster_from_context ctx = cluster_or_empty (value ctx cluster_context_key)

  unfoldable pub with_workspace_path : Context L → Text → Context L
  with_workspace_path ctx path = with_value ctx workspace_context_key (workspace_path path)

  -- `nowhere` is logicalcluster.None.
  unfoldable pub workspace_path_from_context : Text → Context L → Text
  unfolding value
  workspace_path_from_context nowhere ctx = path_or_none nowhere (value ctx workspace_context_key)

  -- What Reconcile puts into the context, in its order, and what the sources put on top is read
  -- back: each value by its own reader, whatever context it starts from, and a logger set later
  -- hides the earlier one and nothing else.
  context_round_trip :
      (ctx : Context L) (cluster path nowhere : Text) (l l' nop : L)
      → let reconciling = with_log (with_workspace_path (with_cluster_name ctx cluster) path) l in
        let at_source = with_log reconciling l' in
        (cluster_from_context at_source ≡ cluster)
        × (workspace_path_from_context nowhere at_source ≡ path)
        × (from_context nop at_source ≡ l')
        × (from_context nop reconciling ≡ l)
  unfolding with_log with_workspace_path with_cluster_name cluster_from_context
      workspace_path_from_context from_context
  context_round_trip ctx cluster path nowhere l l' nop = (refl, refl, refl, refl)
