-- ===== src/Sdk/DeepCopy/Copies.antt =====
-- The deep copies of an InitTargetList and of an InitTemplateList.
use init_agent.Base.{
  ℕ, ◌≤◌, ◌≡◌, refl, sym, ap, ◌∙◌, subst, ◌⊎◌, inl, inr, some, List, [], get_elem?, length,
}
use init_agent.Sdk.Types.{InitTemplateSpec, TemplateInitSource}
use init_agent.Sdk.DeepCopy.{
  Memory, InitSourceCell, InitTargetCell, InitTemplateCell, or_zero, array_at, sources_into,
  init_target_spec_into, init_target_into, init_template_spec_into, init_template_into,
}
use init_agent.Sdk.DeepCopy.Reads.{set, Keeps, Keeps-set, IsFresh, All-get_elem?}
use init_agent.Sdk.DeepCopy.Slices.{
  IsWithin, ReachesTemplate, SliceCopied, sources_said-Keeps, sources_into-SliceCopied,
}
use init_agent.Sdk.DeepCopy.Laws.{target_said}
use init_agent.Sdk.DeepCopy.Lists.{
  ListCell, ListMemory, init_target_list_deep_copy, init_template_list_deep_copy,
}
use init_agent.Sdk.DeepCopy.Items.{Preserves, IsCopy, Untouched, AreCopies}
use init_agent.Sdk.DeepCopy.Arrays.{AreIn, ListCopied, list_into-ListCopied}
use init_agent.Sdk.DeepCopy.Within.{Keeps-trans, IsWithin-Keeps}

-- What DeepCopyInto of the metadata of objects and of lists promises: a copy says the same, lies in
-- memory that was not there before, and leaves alone what was there. `later` is how the memory of
-- the library grows by such copies, and `wrote h x h'` a write to a part of `h` that `x` reaches.
pub record IsMetaLibrary {M L H A C : Type 0} (copy_meta : M → H → M × H)
    (copy_list_meta : L → H → L × H) (lies : H → M → Type 0) (says : H → M → A)
    (list_lies : H → L → Type 0) (list_says : H → L → C) (later : H → H → Type 0)
    (wrote : H → M → H → Type 0) : Type 0 where
  pub copied : (x : M) (h : H) → lies h x → IsCopy lies says x h (copy_meta x h)
  pub list_copied :
      (l : L) (h : H) → list_lies h l → IsCopy list_lies list_says l h (copy_list_meta l h)
  pub grows : (x : M) (h : H) → lies h x → later h (copy_meta x h).1
  pub list_grows : (l : L) (h : H) → list_lies h l → later h (copy_list_meta l h).1
  pub unchanged : (h : H) → later h h
  pub after : (h h₁ h₂ : H) → later h h₁ → later h₁ h₂ → later h h₂
  pub kept : (h h₁ : H) → later h h₁ → Preserves lies says h h₁
  pub lists_kept : (h h₁ : H) → later h h₁ → Preserves list_lies list_says h h₁
  -- A write through the copy, now or later, does not touch what was there before the copy.
  pub apart :
      (x : M) (h h₂ h₃ : H)
      → lies h x
      → later (copy_meta x h).1 h₂
      → wrote h₂ (copy_meta x h).0 h₃
      → ((y : M) → lies h y → says h₃ y ≡ says h y)
        × ((l : L) → list_lies h l → list_says h₃ l ≡ list_says h l)

-- The metadata and the pointers of an InitTarget lie in the memory; an InitTemplate has no pointers.
abbrev pub TargetLies : {M H : Type 0} → (H → M → Type 0) → Memory H → InitTargetCell M → Type 0
TargetLies lies m target = lies m.library target.meta × IsWithin m target.spec.sources

abbrev pub TemplateLies : {M H : Type 0} → (H → M → Type 0) → Memory H → InitTemplateCell M → Type 0
TemplateLies lies m template = lies m.library template.meta

abbrev pub template_said :
    {M H A : Type 0} → (H → M → A) → Memory H → InitTemplateCell M → A × InitTemplateSpec
template_said says m template = (says m.library template.meta, template.spec)

-- A write to what an InitTemplate reaches: through its metadata.
abbrev pub TemplateWrote :
    {M H : Type 0} → (H → M → H → Type 0) → Memory H → InitTemplateCell M → Memory H → Type 0
TemplateWrote {M} {H} wrote m template m' =
    (h : H) × wrote m.library template.meta h × (m' ≡ record m { library = h })

-- A write to what an InitTarget reaches: a template that one of its sources points to, its array of
-- sources, or through its metadata.
abbrev pub TargetWrote :
    {M H : Type 0} → (H → M → H → Type 0) → Memory H → InitTargetCell M → Memory H → Type 0
TargetWrote {M} {H} wrote m target m' =
    ((p : ℕ) × (t : TemplateInitSource) × ReachesTemplate m target.spec p
      × (m' ≡ record m { templates = set m.templates p t }))
    ⊎ (((a : ℕ) × (sources : List InitSourceCell) × (target.spec.sources ≡ some a)
          × (m' ≡ record m { arrays = set m.arrays a sources }))
        ⊎ ((h : H) × wrote m.library target.meta h × (m' ≡ record m { library = h })))

module _ {M L H A C : Type 0} (copy_meta : M → H → M × H) (copy_list_meta : L → H → L × H)
    (lies : H → M → Type 0) (says : H → M → A) (list_lies : H → L → Type 0) (list_says : H → L → C)
    (later : H → H → Type 0) (wrote : H → M → H → Type 0)
    (law : IsMetaLibrary copy_meta copy_list_meta lies says list_lies list_says later wrote) where
  -- The growth of the whole memory by copies.
  abbrev Later : Memory H → Memory H → Type 0
  Later m m' =
      Keeps m.templates m'.templates × (Keeps m.arrays m'.arrays × later m.library m'.library)

  Later-trans : (m m₁ m₂ : Memory H) → Later m m₁ → Later m₁ m₂ → Later m m₂
  Later-trans m m₁ m₂ k l = (
    Keeps-trans m.templates m₁.templates m₂.templates k.0 l.0,
    (
      Keeps-trans m.arrays m₁.arrays m₂.arrays k.1.0 l.1.0,
      law.after m.library m₁.library m₂.library k.1.1 l.1.1,
    ),
  )

  Later-refl : (m : Memory H) → Later m m
  Later-refl m = (λ p h. refl, (λ p h. refl, law.unchanged m.library))

  -- The memory after the metadata of a target were copied, and what the copy of its spec does to it.
  abbrev begun : InitTargetCell M → Memory H → Memory H
  begun target m = record m { library = (copy_meta target.meta m.library).1 }

  spec_copied :
      (target : InitTargetCell M) (m : Memory H)
      → TargetLies lies m target
      → SliceCopied
          (begun target m)
          target.spec.sources
          (sources_into target.spec.sources (begun target m)).0
          (sources_into target.spec.sources (begun target m)).1
  spec_copied target m h = sources_into-SliceCopied target.spec.sources (begun target m) h.1

  abbrev TargetsUntouched : Memory H → Memory H → Type 0
  TargetsUntouched = Untouched (TargetLies lies) (target_said says) list_lies list_says

  -- Memory that keeps its templates and arrays, in a library that keeps what it said.
  kept-Untouched :
      (m m' : Memory H)
      → Keeps m.templates m'.templates
      → Keeps m.arrays m'.arrays
      → ((y : M) → lies m.library y → says m'.library y ≡ says m.library y)
      → ((l : L) → list_lies m.library l → list_says m'.library l ≡ list_says m.library l)
      → TargetsUntouched m m'
  kept-Untouched m m' k l items metas = record {
    items = λ y o i. (
      items y.meta o.0 i,
      (
        y.spec.workspace_type_reference,
        sources_said-Keeps m y.spec.sources m'.templates m'.arrays o.1 k l i,
      ),
    );
    metas = metas;
  }

  target-Later :
      (target : InitTargetCell M) (m : Memory H)
      → TargetLies lies m target
      → Later m (init_target_into copy_meta target m).1
  unfolding init_target_into init_target_spec_into
  target-Later target m h =
      let c = spec_copied target m h in
      (
        c.keeps_templates,
        (
          c.keeps_arrays,
          subst (later m.library) (sym c.library) (law.grows target.meta m.library h.0),
        ),
      )

  -- An array of sources that the copy has is the same later, and its pointers are new.
  fresh_pointer :
      (target : InitTargetCell M) (m m₂ : Memory H)
      → TargetLies lies m target
      → let (copy, m') = init_target_into copy_meta target m in
        Keeps m'.arrays m₂.arrays
        → (p : ℕ) → ReachesTemplate m₂ copy.spec p
        → length m.templates ≤ p
  unfolding init_target_into init_target_spec_into
  fresh_pointer target m m₂ h grown p (a, i, source, e, at, points) =
      let c = spec_copied target m h in
      let m' = (sources_into target.spec.sources (begun target m)).1 in
      let here : array_at m₂.arrays a ≡ array_at m'.arrays a =
        ap (or_zero []) (grown a (subst (IsWithin m') e c.within).0) in
      subst (IsFresh (length m.templates)) points (
        All-get_elem? _ (array_at m'.arrays a) i (c.fresh_templates a e)
          (ap (λ l. get_elem? l i) (sym here) ∙ at))

  target_apart :
      (target : InitTargetCell M) (m : Memory H)
      → TargetLies lies m target
      → (m₂ m₃ : Memory H) → Later (init_target_into copy_meta target m).1 m₂
      → TargetWrote wrote m₂ (init_target_into copy_meta target m).0 m₃
      → TargetsUntouched m m₃
  unfolding init_target_into init_target_spec_into
  target_apart target m h m₂ m₃ grown written =
      let c = spec_copied target m h in
      let m' = (sources_into target.spec.sources (begun target m)).1 in
      let all = Later-trans m m' m₂ (target-Later target m h) grown in
      let items = λ (y : M) (o : lies m.library y). (law.kept m.library m₂.library all.1.1 y o).0 in
      let metas = λ (l : L) (o : list_lies m.library l).
        (law.lists_kept m.library m₂.library all.1.1 l o).0 in
      elim written [
        | inl (p, t, reaches, e) ↦ subst (TargetsUntouched m) (sym e) (
            kept-Untouched m (record m₂ { templates = set m₂.templates p t })
              (Keeps-set m.templates m₂.templates p t all.0
                (fresh_pointer target m m₂ h grown.1.0 p reaches))
              all.1.0 items metas)
        | inr (inl (a, sources, at, e)) ↦ subst (TargetsUntouched m) (sym e) (
            kept-Untouched m (record m₂ { arrays = set m₂.arrays a sources }) all.0
              (Keeps-set m.arrays m₂.arrays a sources all.1.0
                (subst (IsFresh (length m.arrays)) at c.fresh_array))
              items metas)
        | inr (inr (library, through, e)) ↦
            let (items', metas') =
              law.apart target.meta m.library m₂.library library h.0
                (subst (λ x. later x m₂.library) c.library grown.1.1) through in
            subst (TargetsUntouched m) (sym e)
              (kept-Untouched m (record m₂ { library = library }) all.0 all.1.0 items' metas')
      ]

  targets-AreCopies :
      AreCopies
        (init_target_into copy_meta)
        copy_list_meta
        (TargetLies lies)
        (target_said says)
        list_lies
        list_says
        Later
        (TargetWrote wrote)
  unfolding init_target_into init_target_spec_into
  targets-AreCopies = record {
    item_copied = λ target m h.
        let c = spec_copied target m h in
        let (same, lie) = law.copied target.meta m.library h.0 in
        let meta = (copy_meta target.meta m.library).0 in
        let reference = target.spec.workspace_type_reference in
        (
          λ i. ((ap (λ h'. says h' meta) c.library ∙ same) i, ap (λ l. (reference, l)) c.same i),
          (subst (λ h'. lies h' meta) (sym c.library) lie, c.within),
        );
    item_later = target-Later;
    item_apart = target_apart;
    list_copied = law.list_copied;
    list_later = λ l m h. (λ p k. refl, (λ p k. refl, law.list_grows l m.library h));
    unchanged = Later-refl;
    after = Later-trans;
    kept = λ m m' grown y o.
        let (same, lie) = law.kept m.library m'.library grown.1.1 y.meta o.0 in
        let sources =
          sources_said-Keeps m y.spec.sources m'.templates m'.arrays o.1 grown.0 grown.1.0 in
        (
          λ i. (same i, (y.spec.workspace_type_reference, sources i)),
          (lie, IsWithin-Keeps m m' y.spec.sources grown.0 grown.1.0 o.1),
        );
    metas_kept = λ m m' grown. law.lists_kept m.library m'.library grown.1.1;
  }

  templates-AreCopies :
      AreCopies
        (init_template_into copy_meta)
        copy_list_meta
        (TemplateLies lies)
        (template_said says)
        list_lies
        list_says
        Later
        (TemplateWrote wrote)
  unfolding init_template_into init_template_spec_into
  templates-AreCopies = record {
    item_copied = λ template m h.
        let (same, lie) = law.copied template.meta m.library h in
        (λ i. (same i, template.spec), lie);
    item_later = λ template m h. (λ p k. refl, (λ p k. refl, law.grows template.meta m.library h));
    item_apart = λ template m h m₂ m₃ grown (library, through, e).
        let (items, metas) =
          law.apart template.meta m.library m₂.library library h grown.1.1 through in
        subst (Untouched (TemplateLies lies) (template_said says) list_lies list_says m) (sym e)
          (record { items = λ y o i. (items y.meta o i, y.spec); metas = metas });
    list_copied = law.list_copied;
    list_later = λ l m h. (λ p k. refl, (λ p k. refl, law.list_grows l m.library h));
    unchanged = Later-refl;
    after = Later-trans;
    kept = λ m m' grown y o.
        let (same, lie) = law.kept m.library m'.library grown.1.1 y.meta o in
        (λ i. (same i, y.spec), lie);
    metas_kept = λ m m' grown. law.lists_kept m.library m'.library grown.1.1;
  }

  -- For an InitTargetList and an InitTemplateList whose metadata, arrays and items lie in their
  -- memory, and a DeepCopyInto of metadata whose copies say the same and share nothing with what was
  -- there: DeepCopy makes a list that says what the original says, item by item, and the original
  -- still says it; also after any write to the array of items of the copy, and after any write to
  -- what an item of the copy reaches: the templates and the array of sources of an InitTarget, and
  -- the metadata of either type. DeepCopy of nil is nil.
  pub lists-ListCopied :
      (list : ListCell L) (m : ListMemory H (InitTargetCell M)) (list' : ListCell L)
      (m' : ListMemory H (InitTemplateCell M))
      → list_lies m.memory.library list.meta
      → AreIn (TargetLies lies) m.memory m.arrays list.items
      → list_lies m'.memory.library list'.meta
      → AreIn (TemplateLies lies) m'.memory m'.arrays list'.items
      → ListCopied
          (init_target_list_deep_copy copy_meta copy_list_meta)
          (target_said says)
          list_says
          (TargetWrote wrote)
          list
          m
        × ListCopied
            (init_template_list_deep_copy copy_meta copy_list_meta)
            (template_said says)
            list_says
            (TemplateWrote wrote)
            list'
            m'
  unfolding init_target_list_deep_copy init_template_list_deep_copy
  lists-ListCopied list m list' m' l h l' h' = (
    list_into-ListCopied (init_target_into copy_meta) copy_list_meta (TargetLies lies)
        (target_said says) list_lies list_says Later (TargetWrote wrote) targets-AreCopies list m l
        h,
    list_into-ListCopied (init_template_into copy_meta) copy_list_meta (TemplateLies lies)
        (template_said says) list_lies list_says Later (TemplateWrote wrote) templates-AreCopies
        list' m' l' h',
  )
