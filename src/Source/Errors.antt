-- ===== src/Source/Errors.antt =====
-- A source is made and rendered without a panic, for a cluster that has its path.
use init_agent.Base.{Option, none, some, List, Text, ◌≡◌, inl, inr}
use init_agent.Effect.{Error, Run, ok, query, lift, ◌>>=◌}
use init_agent.Effect.Errors.{Answers, Errs, Errs-pure, Errs-raise, Errs-lift, Errs-query, Errs->>=}
use init_agent.Sdk.Types.{InitSource, TemplateInitSource, InitTemplate}
use init_agent.Remote.{Remote, LogicalCluster, Fetched, found, failed, Fetched-cases}
use init_agent.Kcp.Annotations.{cluster_name_from_object, cluster_path_from_object}
use init_agent.Manifest.Yaml.{parse_yaml, parsed, parse_yaml_lem}
use init_agent.Source.{
  new_source, new_from_init_template, executed, render, manifests, or_raise, from_fetched, register,
  factory, new_init_template, new_for, new_for_init_source,
}

-- Any error, but no panic.
abbrev pub Any : {E : Type 0} → Error E → Type 0
Any e = Unit

module _ {Object E S Tpl : Type 0} (remote : Remote Object E S Tpl) where
  new_source-Answers : (text : Text) → Answers Any (new_source remote text)
  unfolding new_source
  new_source-Answers text = elim (Fetched-cases (remote.parse_template text)) [
    | inl (tpl, e) ↦ rw (e, new_source) tt
    | inr (x, e) ↦ rw (e, new_source) tt
  ]

  executed-Answers : (f : Fetched E Text) → Answers Any (executed remote f)
  unfolding executed
  executed-Answers (found t) = tt
  executed-Answers (failed e) = tt

  from_fetched-Errs : (f : Fetched E InitTemplate) → Errs Any (from_fetched remote f)
  unfolding from_fetched new_from_init_template
  from_fetched-Errs (found t) = Errs-lift _ (new_source-Answers t.spec.template)
  from_fetched-Errs (failed e) = Errs-raise _ tt

  or_raise-Errs : (e : Option E) → Errs Any (or_raise remote e)
  unfolding or_raise
  or_raise-Errs none = Errs-pure tt
  or_raise-Errs (some e) = Errs-raise _ tt

  register-Errs : (e : Option E) → Errs Any (register remote e)
  unfolding register
  register-Errs none = Errs-pure tt
  register-Errs (some e) = Errs-raise _ tt

  factory-Errs : (home : Text) (src : TemplateInitSource) → Errs Any (factory remote home src)
  unfolding factory
  factory-Errs home src =
      Errs->>= (register remote remote.add_to_scheme) _ (register-Errs remote.add_to_scheme)
        λ registered. Errs->>= (query (remote.new_client home)) _ (Errs-query _) λ failure.
          Errs->>= (or_raise remote failure) _ (or_raise-Errs failure) λ client.
            Errs->>= (query (remote.get_template home src.name)) _ (Errs-query _)
              λ fetched. from_fetched-Errs fetched

  new_for-Errs :
      (home : Text) (src : Option TemplateInitSource) → Errs Any (new_for remote home src)
  unfolding new_for new_init_template
  new_for-Errs home none = Errs-raise _ tt
  new_for-Errs home (some src) = factory-Errs home src

  pub new_for_init_source-Errs :
      (home : Text) (src : InitSource) → Errs Any (new_for_init_source remote home src)
  unfolding new_for_init_source
  new_for_init_source-Errs home src = new_for-Errs home src.template

  parsed-Answers :
      (objs : List Object) (failure : Option E) → Answers Any (parsed remote objs failure)
  parsed-Answers objs none = tt
  parsed-Answers objs (some e) = tt

  parse_yaml-Answers : (text : Text) → Answers Any (parse_yaml remote text)
  parse_yaml-Answers text = rw (parse_yaml_lem remote text) (parsed-Answers _ _)

  abbrev executing : Tpl → Text × Text → Run Object E S Text
  executing tpl values =
      query (remote.execute tpl values) >>= λ result. lift (executed remote result)

  executing-Errs : (tpl : Tpl) (values : Text × Text) → Errs Any (executing tpl values)
  executing-Errs tpl values =
      Errs->>= (query (remote.execute tpl values)) (λ result. lift (executed remote result))
        (Errs-query (remote.execute tpl values))
        (λ result. Errs-lift (executed remote result) (executed-Answers result))

  pub manifests-Errs :
      (tpl : Tpl) (lc : LogicalCluster) (path : Text)
      → cluster_path_from_object remote lc.meta ≡ ok path
      → Errs Any (manifests remote tpl lc)
  unfolding manifests render
  manifests-Errs tpl lc path located =
      Errs->>= (render remote tpl lc) (λ text. lift (parse_yaml remote text))
        (rw located (executing-Errs tpl (cluster_name_from_object remote lc.meta, path)))
        (λ text. Errs-lift (parse_yaml remote text) (parse_yaml-Answers text))
