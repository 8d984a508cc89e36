-- ===== src/Source/Laws.antt =====
-- What a source renders, and what it leaves alone.
use init_agent.Base.{arith, ◌≡◌, refl, sym, ap, ◌∙◌, Option, none, some, List, Text}
use init_agent.Effect.{ok, World, Run, lift, query, ◌>>=◌}
use init_agent.Effect.Laws.{>>=-eq-ok}
use init_agent.Sdk.Types.{InitSource, TemplateInitSource, InitTemplate}
use init_agent.Remote.{Remote, LogicalCluster, Fetched, found, failed}
use init_agent.Kcp.Annotations.{cluster_name_from_object, cluster_path_from_object}
use init_agent.Manifest.Yaml.{parse_yaml}
use init_agent.Source.{
  new_source, new_from_init_template, executed, render, manifests, or_raise, from_fetched, register,
  factory, new_init_template, new_for, new_for_init_source,
}

module _ {Object E S Tpl : Type 0} (remote : Remote Object E S Tpl) where
  new_source-ok :
      (text : Text) {tpl : Tpl}
      → new_source remote text ≡ ok tpl
      → remote.parse_template text ≡ found tpl
  unfolding new_source
  new_source-ok text h = ground arith

  executed-ok : (f : Fetched E Text) {text : Text} → executed remote f ≡ ok text → f ≡ found text
  unfolding executed
  executed-ok (found t) h = cc
  executed-ok (failed e) h = cc

  render-ok :
      (tpl : Tpl) (lc : LogicalCluster) (w : World Object E S) {text : Text} {w' : World Object E S}
      → render remote tpl lc w ≡ (ok text, w')
      → (path : Text) × (cluster_path_from_object remote lc.meta ≡ ok path)
        × (s : S) × (remote.execute tpl (cluster_name_from_object remote lc.meta, path) w.server
            ≡ (found text, s))
        × (w' ≡ record w { server = s })
  unfolding render
  render-ok tpl lc w h =
      let values : Text → Text × Text = λ path. (cluster_name_from_object remote lc.meta, path) in
      let (path, located, done) =
        >>=-eq-ok (lift (cluster_path_from_object remote lc.meta))
          (λ path.
            query (remote.execute tpl (values path)) >>= λ result. lift (executed remote result))
          w h in
      let result = remote.execute tpl (values path) w.server in
      (
        path,
        λ i. (located i).0,
        result.1,
        λ i. (executed-ok result.0 (λ j. (done j).0) i, result.1),
        sym (λ i. (done i).1),
      )

  manifests-ok :
      (tpl : Tpl) (lc : LogicalCluster) (w : World Object E S) {objects : List Object}
      {w' : World Object E S}
      → manifests remote tpl lc w ≡ (ok objects, w')
      → (path text : Text) × (cluster_path_from_object remote lc.meta ≡ ok path)
        × (s : S) × (remote.execute tpl (cluster_name_from_object remote lc.meta, path) w.server
            ≡ (found text, s))
        × (parse_yaml remote text ≡ ok objects)
        × (w' ≡ record w { server = s })
  unfolding manifests
  manifests-ok tpl lc w h =
      let (text, rendered, parsed) =
        >>=-eq-ok (render remote tpl lc) (λ text. lift (parse_yaml remote text)) w h in
      let (path, located, s, done, e) = render-ok tpl lc w rendered in
      (path, text, located, s, done, λ i. (parsed i).0, sym (λ i. (parsed i).1) ∙ e)

  register-ok :
      (e : Option E) (f : Unit {0} → Run Object E S Tpl) (w : World Object E S) {tpl : Tpl}
      {w' : World Object E S}
      → (register remote e >>= f) w ≡ (ok tpl, w')
      → f tt w ≡ (ok tpl, w')
  unfolding register
  register-ok none f w h = h
  register-ok (some e) f w h = cc

  or_raise-ok :
      (e : Option E) (f : Unit {0} → Run Object E S Tpl) (w : World Object E S) {tpl : Tpl}
      {w' : World Object E S}
      → (or_raise remote e >>= f) w ≡ (ok tpl, w')
      → (e ≡ none) × (f tt w ≡ (ok tpl, w'))
  unfolding or_raise
  or_raise-ok none f w h = (refl, h)
  or_raise-ok (some e) f w h = cc

  from_fetched-ok :
      (f : Fetched E InitTemplate) (w : World Object E S) {tpl : Tpl} {w' : World Object E S}
      → from_fetched remote f w ≡ (ok tpl, w')
      → (t : InitTemplate) × (f ≡ found t)
        × (remote.parse_template t.spec.template ≡ found tpl)
        × (w' ≡ w)
  unfolding from_fetched new_from_init_template
  from_fetched-ok (found t) w h =
      (t, refl, new_source-ok t.spec.template (λ i. (h i).0), sym (λ i. (h i).1))
  from_fetched-ok (failed e) w h = cc

  factory-ok :
      (cluster : Text) (src : TemplateInitSource) (w : World Object E S) {tpl : Tpl}
      {w' : World Object E S}
      → factory remote cluster src w ≡ (ok tpl, w')
      → (t : InitTemplate) × (s s' : S) × (remote.new_client cluster w.server ≡ (none, s))
        × (remote.get_template cluster src.name s ≡ (found t, s'))
        × (remote.parse_template t.spec.template ≡ found tpl)
        × (w' ≡ record w { server = s' })
  unfolding factory
  factory-ok cluster src w h =
      let fetch : Unit {0} → Run Object E S Tpl =
        λ client. query (remote.get_template cluster src.name) >>= from_fetched remote in
      let s = (remote.new_client cluster w.server).1 in
      let made =
        register-ok remote.add_to_scheme
          (λ r. query (remote.new_client cluster) >>= λ failure. or_raise remote failure >>= fetch)
          w h in
      let (granted, fetched) =
        or_raise-ok (remote.new_client cluster w.server).0 fetch (record w { server = s }) made in
      let answer = remote.get_template cluster src.name s in
      let (t, got, parsed, same) =
        from_fetched-ok answer.0 (record w { server = answer.1 }) fetched in
      (t, s, answer.1, λ i. (granted i, s), λ i. (got i, answer.1), parsed, same)

  new_for-ok :
      (cluster : Text) (template : Option TemplateInitSource) (w : World Object E S) {tpl : Tpl}
      {w' : World Object E S}
      → new_for remote cluster template w ≡ (ok tpl, w')
      → (src : TemplateInitSource) × (template ≡ some src)
        × (factory remote cluster src w ≡ (ok tpl, w'))
  unfolding new_for new_init_template
  new_for-ok cluster none w h = cc
  new_for-ok cluster (some src) w h = (src, refl, h)

  -- What a rendered source is: the documents of the text that the fetched template gives for the
  -- name and the path of the logical cluster.
  pub record Rendered (home : Text) (ref : InitSource) (lc : LogicalCluster)
      (w w' : World Object E S) (objects : List Object) : Type 0 where
    pub source : TemplateInitSource
    pub chosen : ref.template ≡ some source
    pub template : InitTemplate
    pub connected : S
    pub client : remote.new_client home w.server ≡ (none, connected)
    pub read : S
    pub fetched : remote.get_template home source.name connected ≡ (found template, read)
    pub parsed : Tpl
    pub is_parsed : remote.parse_template template.spec.template ≡ found parsed
    pub path : Text
    pub located : cluster_path_from_object remote lc.meta ≡ ok path
    pub text : Text
    pub executed_to :
        remote.execute parsed (cluster_name_from_object remote lc.meta, path) read
        ≡ (found text, w'.server)
    pub documents : parse_yaml remote text ≡ ok objects
    pub no_requests : w'.calls ≡ w.calls

  -- If a source is made and rendered for a logical cluster without an error, it names a template;
  -- the manifests are the documents of the text that this template, fetched and parsed, gives for
  -- the name and the path of the cluster; and nothing was asked of the server that changes it.
  pub rendered_lem :
      (home : Text) (ref : InitSource) (lc : LogicalCluster) (w w' : World Object E S)
      (objects : List Object)
      → (new_for_init_source remote home ref >>= λ tpl. manifests remote tpl lc) w
        ≡ (ok objects, w')
      → Rendered home ref lc w w' objects
  unfolding new_for_init_source
  rendered_lem home ref lc w w' objects h =
      let made : Run Object E S Tpl = new_for_init_source remote home ref in
      let (tpl, ran, rest) = >>=-eq-ok made (λ tpl. manifests remote tpl lc) w h in
      let (source, chosen, built) = new_for-ok home ref.template w ran in
      let (template, s, s', client, fetched, parsed, same) = factory-ok home source w built in
      let (path, text, located, s'', executed_to, documents, e) =
        manifests-ok tpl lc (made w).1 rest in
      let asked : (made w).1.server ≡ s' = λ i. (same i).server in
      record {
        source = source;
        chosen = chosen;
        template = template;
        connected = s;
        client = client;
        read = s';
        fetched = fetched;
        parsed = tpl;
        is_parsed = parsed;
        path = path;
        located = located;
        text = text;
        executed_to =
            ap (remote.execute tpl (cluster_name_from_object remote lc.meta, path)) (sym asked)
            ∙ executed_to
            ∙ (λ i. (found text, (sym e i).server));
        documents = documents;
        no_requests = (λ i. (e i).calls) ∙ (λ i. (same i).calls);
      }
