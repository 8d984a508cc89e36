-- ===== src/Source.antt =====
-- internal/initialize/source and its package inittemplate: from a source of an InitTarget to the
-- manifests for a cluster. `Tpl`, a parsed template, is the source object.
pub mod Quiet
pub mod Ends
pub mod Errors
pub mod Laws
use init_agent.Base.{Option, none, some, List, Text}
use init_agent.Effect.{
  Outcome, ok, err, external, plain, wrapped, failed_to_parse_template, failed_to_execute_template,
  failed_to_register_scheme, no_known_source, Run, pure, raise, lift, query, ◌>>=◌,
}
use init_agent.Sdk.Types.{ObjectMeta, TemplateInitSource, InitSource, InitTemplate}
use init_agent.Remote.{Remote, LogicalCluster, Fetched, found, failed}
use init_agent.Kcp.Annotations.{cluster_name_from_object, cluster_path_from_object}
use init_agent.Manifest.Yaml.{parse_yaml}

module _ {Object E S Tpl : Type 0} (remote : Remote Object E S Tpl) where
  -- New of package inittemplate.
  unfoldable pub new_source : Text → Outcome E Tpl
  new_source text = elim (remote.parse_template text) [
    | found tpl ↦ ok tpl
    | failed e ↦ err (wrapped failed_to_parse_template (external e))
  ]

  unfoldable pub new_from_init_template : InitTemplate → Outcome E Tpl
  unfolding new_source
  new_from_init_template template = new_source template.spec.template

  executed : Fetched E Text → Outcome E Text
  executed (found text) = ok text
  executed (failed e) = err (wrapped failed_to_execute_template (external e))

  -- The render context is the pair of ClusterName and ClusterPath.
  unfoldable pub render : Tpl → LogicalCluster → Run Object E S Text
  unfolding executed cluster_name_from_object cluster_path_from_object
  render tpl cluster = do
    path ← lift (cluster_path_from_object remote cluster.meta)
    result ← query (remote.execute tpl (cluster_name_from_object remote cluster.meta, path))
    lift (executed result)

  -- Manifests, the method of ManifestsSource.
  unfoldable pub manifests : Tpl → LogicalCluster → Run Object E S (List Object)
  unfolding render parse_yaml
  manifests tpl cluster = do text ← render tpl cluster; lift (parse_yaml remote text)

  or_raise : Option E → Run Object E S (Unit {0})
  or_raise none = pure tt
  or_raise (some e) = raise (external e)

  from_fetched : Fetched E InitTemplate → Run Object E S Tpl
  unfolding new_from_init_template
  from_fetched (found template) = lift (new_from_init_template template)
  from_fetched (failed e) = raise (external e)

  -- `if err := AddToScheme(scheme); err != nil`
  register : Option E → Run Object E S (Unit {0})
  register none = pure tt
  register (some e) = raise (wrapped failed_to_register_scheme (external e))

  -- Factory of package inittemplate.
  unfoldable pub factory : Text → TemplateInitSource → Run Object E S Tpl
  unfolding or_raise from_fetched register
  factory cluster src = do
    registered ← register remote.add_to_scheme
    failure ← query (remote.new_client cluster)
    client ← or_raise failure
    fetched ← query (remote.get_template cluster src.name)
    from_fetched fetched

  -- NewInitTemplate of the source factory.
  unfoldable pub new_init_template : Text → TemplateInitSource → Run Object E S Tpl
  unfolding factory
  new_init_template cluster src = factory cluster src

  -- The `switch` of NewForInitSource.
  new_for : Text → Option TemplateInitSource → Run Object E S Tpl
  unfolding new_init_template
  new_for cluster (some src) = new_init_template cluster src
  new_for cluster none = raise (plain no_known_source)

  unfoldable pub new_for_init_source : Text → InitSource → Run Object E S Tpl
  unfolding new_for
  new_for_init_source cluster src = new_for cluster src.template
