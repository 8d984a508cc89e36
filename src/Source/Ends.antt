-- ===== src/Source/Ends.antt =====
-- A source that can be fetched, parsed and rendered yields its manifests.
use init_agent.Base.{◌≡◌, none, some, Text}
use init_agent.Effect.Ends.{Ends}
use init_agent.Sdk.Types.{InitSource, TemplateInitSource, InitTemplate}
use init_agent.Remote.{Remote, LogicalCluster, found}
use init_agent.Source.{
  new_source, new_from_init_template, manifests, factory, new_init_template, new_for,
  new_for_init_source,
}

module _ {Object E S Tpl : Type 0} (remote : Remote Object E S Tpl) (P : S → Type 0) (home : Text)
    (lc : LogicalCluster) where
  abbrev pub IsRenderable : Tpl → Type 0
  IsRenderable tpl = Ends P (λ objects. Unit {0}) (manifests remote tpl lc)

  -- In the admitted states the client is made, and the template is fetched, parsed and rendered.
  pub record Renders (src : TemplateInitSource) : Type 0 where
    pub client :
        (s : S) → P s → ((remote.new_client home s).0 ≡ none) × P (remote.new_client home s).1
    pub template :
        (s : S)
        → P s
        → (t : InitTemplate) × (tpl : Tpl) × ((remote.get_template home src.name s).0 ≡ found t)
          × (remote.parse_template t.spec.template ≡ found tpl)
          × IsRenderable tpl
          × P (remote.get_template home src.name s).1

  module _ (scheme : remote.add_to_scheme ≡ none) where
    Ends-factory :
        (src : TemplateInitSource) → Renders src → Ends P IsRenderable (factory remote home src)
    unfolding factory new_from_init_template new_source
    Ends-factory src h = record {
      from = λ w p.
          let (c, p₁) = h.client w.server p in
          let s = (remote.new_client home w.server).1 in
          let (t, tpl, got, parsed, rendered, p₂) = h.template s p₁ in
          (tpl, rw (scheme, c, got, parsed), rendered, rw (scheme, c, got) p₂);
    }

    pub Ends-new_for_init_source :
        (ref : InitSource) (src : TemplateInitSource)
        → ref.template ≡ some src
        → Renders src
        → Ends P IsRenderable (new_for_init_source remote home ref)
    unfolding new_for_init_source new_for new_init_template
    Ends-new_for_init_source ref src e h = rw e (Ends-factory src h)
