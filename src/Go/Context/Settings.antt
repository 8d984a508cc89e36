-- ===== src/Go/Context/Settings.antt =====
-- What the readers find in a context after any sequence of settings.
use init_agent.Base.{◌≡◌, refl, List, [], ◌∷◌, Text}
use init_agent.Go.Context.{
  Context, with_log, from_context, with_cluster_name, cluster_from_context, with_workspace_path,
  workspace_path_from_context,
}

-- A call that sets a value.
pub data Setting (L : Type 0) : Type 0 where
  log : L → Setting L
  cluster path : Text → Setting L

module _ {L : Type 0} where
  abbrev setting : Setting L → Context L → Context L
  setting (log l) ctx = with_log ctx l
  setting (cluster c) ctx = with_cluster_name ctx c
  setting (path p) ctx = with_workspace_path ctx p

  -- The context after the calls, the last one first.
  abbrev pub after : List (Setting L) → Context L → Context L
  after [] ctx = ctx
  after (s ∷ settings) ctx = setting s (after settings ctx)

  -- The value that was set last, and a default where none was set.
  abbrev pub last_log : List (Setting L) → L → L
  last_log [] l = l
  last_log (log l' ∷ settings) l = l'
  last_log (cluster c ∷ settings) l = last_log settings l
  last_log (path p ∷ settings) l = last_log settings l

  abbrev pub last_cluster : List (Setting L) → Text → Text
  last_cluster [] c = c
  last_cluster (log l ∷ settings) c = last_cluster settings c
  last_cluster (cluster c' ∷ settings) c = c'
  last_cluster (path p ∷ settings) c = last_cluster settings c

  abbrev pub last_path : List (Setting L) → Text → Text
  last_path [] p = p
  last_path (log l ∷ settings) p = last_path settings p
  last_path (cluster c ∷ settings) p = last_path settings p
  last_path (path p' ∷ settings) p = p'

  -- After any calls that set values, in any order and on any context, each reader finds what the
  -- last call for it has set, and if there was none what it found before: loggers, names of
  -- clusters and paths of workspaces do not get into each other's way.
  pub context_settings :
      (settings : List (Setting L)) (ctx : Context L) (nop : L) (nowhere : Text)
      → let ctx' = after settings ctx in
        (from_context nop ctx' ≡ last_log settings (from_context nop ctx))
        × (cluster_from_context ctx' ≡ last_cluster settings (cluster_from_context ctx))
        × (workspace_path_from_context nowhere ctx'
            ≡ last_path settings (workspace_path_from_context nowhere ctx))
  unfolding with_log with_workspace_path with_cluster_name cluster_from_context
      workspace_path_from_context from_context
  context_settings [] ctx nop nowhere = (refl, refl, refl)
  context_settings (log l ∷ settings) ctx nop nowhere =
      let (a, b, c) = context_settings settings ctx nop nowhere in (refl, b, c)
  context_settings (cluster n ∷ settings) ctx nop nowhere =
      let (a, b, c) = context_settings settings ctx nop nowhere in (a, refl, c)
  context_settings (path p ∷ settings) ctx nop nowhere =
      let (a, b, c) = context_settings settings ctx nop nowhere in (a, b, refl)
