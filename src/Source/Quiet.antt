-- ===== src/Source/Quiet.antt =====
-- Instantiating a source and rendering it patch nothing.
use init_agent.Base.{Option, none, some, Text}
use init_agent.Effect.Quiet.{Quiet, quiet_rules}
use init_agent.Sdk.Types.{TemplateInitSource, InitSource, InitTemplate}
use init_agent.Remote.{Remote, LogicalCluster, Fetched, found, failed}
use init_agent.Source.{
  or_raise, from_fetched, register, factory, new_init_template, new_for, new_for_init_source,
  render, manifests,
}

module _ {Object E S Tpl : Type 0} (remote : Remote Object E S Tpl) where
  Quiet-or_raise : (e : Option E) → Quiet (or_raise remote e)
  unfolding or_raise
  Quiet-or_raise none = search quiet_rules
  Quiet-or_raise (some e) = search quiet_rules

  Quiet-register : (e : Option E) → Quiet (register remote e)
  unfolding register
  Quiet-register none = search quiet_rules
  Quiet-register (some e) = search quiet_rules

  Quiet-from_fetched : (f : Fetched E InitTemplate) → Quiet (from_fetched remote f)
  unfolding from_fetched
  Quiet-from_fetched (found t) = search quiet_rules
  Quiet-from_fetched (failed e) = search quiet_rules

  Quiet-factory : (cluster : Text) (src : TemplateInitSource) → Quiet (factory remote cluster src)
  unfolding factory
  Quiet-factory cluster src =
      search (quiet_rules, Quiet-or_raise, Quiet-register, Quiet-from_fetched)

  Quiet-new_for :
      (cluster : Text) (src : Option TemplateInitSource) → Quiet (new_for remote cluster src)
  unfolding new_for new_init_template
  Quiet-new_for cluster none = search quiet_rules
  Quiet-new_for cluster (some src) = Quiet-factory cluster src

  pub Quiet-new_for_init_source :
      (cluster : Text) (src : InitSource) → Quiet (new_for_init_source remote cluster src)
  unfolding new_for_init_source
  Quiet-new_for_init_source cluster src = Quiet-new_for cluster src.template

  pub Quiet-manifests : (tpl : Tpl) (lc : LogicalCluster) → Quiet (manifests remote tpl lc)
  unfolding manifests render
  Quiet-manifests tpl lc = search quiet_rules
