-- ===== src/Sdk/Fakes/Laws.antt =====
-- What List returns, and when Apply sends a patch.
use init_agent.Base.{
  ◌≡◌, refl, sym, ◌∙◌, ◌⊎◌, inl, inr, Bool, Bool-cases, Option-cases, Option, none, some, List, [],
  ◌∷◌, ◌++◌, append_assoc, append-nil, select, Text, codes,
}
use init_agent.Effect.{external, plain, apply_configuration_required, name_required}
use init_agent.Remote.{Fetched, found, failed, Fetched-cases}
use init_agent.Sdk.Types.{InitTarget, InitTemplate}
use init_agent.Sdk.ApplyConfiguration.{ObjectMetaApplyConfiguration, InitTargetApplyConfiguration}
use init_agent.Sdk.Fakes.{
  Testing, ListOf, Returned, returns, panics, selector_or, matched_items, library_error,
}
use init_agent.Sdk.Fakes.Targets
use init_agent.Sdk.Fakes.Templates
use init_agent.Sdk.TemplateConfiguration.{InitTemplateApplyConfiguration}

matched_items_lem :
    {T : Type 0} (matches : T → Bool) (items rest : List T)
    → matched_items matches items rest ≡ items ++ select matches rest
unfolding matched_items select
matched_items_lem matches items [] = sym (append-nil items)
matched_items_lem matches items (item ∷ rest) = elim (Bool-cases (matches item)) [
  | inl kept ↦ rw kept (
      matched_items_lem matches (items ++ item ∷ []) rest
      ∙ append_assoc items (item ∷ []) (select matches rest))
  | inr left ↦ rw left (matched_items_lem matches items rest)
]

module _ {O Act Any V M LO Sel DO Pt B E W : Type 0}
    (testing : Testing InitTarget
      (InitTargetApplyConfiguration O)
      Act
      Any
      V
      M
      LO
      Sel
      DO
      Pt
      B
      E
      W) where
  -- Where the fake answers with a list, List returns, in their order and with the metadata and the
  -- error of the answer, just the items whose labels match the selector of the options, or match
  -- everything if there is none.
  pub list-select :
      (cluster_path : Text) (opts : LO) (w w' : W) (obj : Any) (e : Option E)
      (l : ListOf M InitTarget)
      → testing.invokes
          (testing.list_action Targets.resource Targets.kind cluster_path opts)
          testing.empty_list
          w
        ≡ ((some obj, e), w')
      → testing.as_list obj ≡ some l
      → let label = selector_or testing.everything (testing.label_selector opts) in
        let matches = λ (item : InitTarget). testing.matches label (testing.labels_of item) in
        Targets.list testing cluster_path opts w
        ≡ (returns (some (record l { items = select matches l.items })) (library_error e), w')
  unfolding Targets.list
  list-select cluster_path opts w w' obj e l answer is_list =
      let label = selector_or testing.everything (testing.label_selector opts) in
      let matches = λ (item : InitTarget). testing.matches label (testing.labels_of item) in
      rw (answer, is_list, matched_items_lem matches [] l.items)

-- What Apply and ApplyStatus of both types promise, for one configuration `c` with the metadata
-- `object_meta`: the patch of the name in the metadata, by the method Patch, with the bytes of the
-- configuration, the type of apply patches and the given subresources; or an error or a panic, each
-- under its condition, without a call of the fake.
abbrev pub Applies :
    {O Cfg T Pt B E W : Type 0}
    → (Cfg → Fetched E B)
    → (Text → Pt → B → List Text → W → Returned E T × W)
    → Pt
    → List Text
    → (Option Cfg → W → Returned E T × W)
    → Option (ObjectMetaApplyConfiguration O)
    → Cfg
    → W
    → Type 0
Applies {O} {B} {E} marshal patch apply_patch_type subresources method object_meta c w =
    (method none w ≡ (returns none (some (plain apply_configuration_required)), w))
    × (((meta : ObjectMetaApplyConfiguration O) × (name : Text) × (bytes : B) × (object_meta
            ≡ some meta)
          × (meta.name ≡ some name)
          × (marshal c ≡ found bytes)
          × (method (some c) w ≡ patch name apply_patch_type bytes subresources w))
        ⊎ (((e : E) × (marshal c ≡ failed e)
              × (method (some c) w ≡ (returns none (some (external e)), w)))
            ⊎ (((meta : ObjectMetaApplyConfiguration O) × (bytes : B) × (marshal c ≡ found bytes)
                  × (object_meta ≡ some meta)
                  × (meta.name ≡ none)
                  × (method (some c) w ≡ (returns none (some (plain name_required)), w)))
                ⊎ ((bytes : B) × (marshal c ≡ found bytes)
                    × (object_meta ≡ none)
                    × (method (some c) w ≡ (panics, w))))))

module _ {O Act Any V M LO Sel DO Pt B E W : Type 0}
    (testing : Testing InitTarget
      (InitTargetApplyConfiguration O)
      Act
      Any
      V
      M
      LO
      Sel
      DO
      Pt
      B
      E
      W) where
  targets_apply-Applies :
      (cluster_path : Text) (c : InitTargetApplyConfiguration O) (w : W)
      → Applies testing.marshal
          (Targets.patch testing cluster_path)
          testing.apply_patch_type
          []
          (Targets.apply testing cluster_path)
          c.object_meta
          c
          w
  unfolding Targets.apply Targets.patch
  targets_apply-Applies cluster_path c w = (
    refl,
    elim (Fetched-cases (testing.marshal c)) [
      | inl (bytes, read) ↦ elim (Option-cases c.object_meta) [
        | inl bare ↦ inr (inr (inr (bytes, read, bare, rw (read, bare, Targets.apply))))
        | inr (meta, e) ↦ elim (Option-cases meta.name) [
          | inl nameless ↦
              inr
                (inr (inl (meta, bytes, read, e, nameless, rw (read, e, nameless, Targets.apply))))
          | inr (name, named) ↦
              inl (meta, name, bytes, e, named, read, rw (read, e, named, Targets.apply))
        ]
      ]
      | inr (x, unread) ↦ inr (inl (x, unread, rw (unread, Targets.apply)))
    ],
  )

  targets_apply_status-Applies :
      (cluster_path : Text) (c : InitTargetApplyConfiguration O) (w : W)
      → Applies testing.marshal
          (Targets.patch testing cluster_path)
          testing.apply_patch_type
          (codes "status" ∷ [])
          (Targets.apply_status testing cluster_path)
          c.object_meta
          c
          w
  unfolding Targets.apply_status Targets.patch
  targets_apply_status-Applies cluster_path c w = (
    refl,
    elim (Fetched-cases (testing.marshal c)) [
      | inl (bytes, read) ↦ elim (Option-cases c.object_meta) [
        | inl bare ↦ inr (inr (inr (bytes, read, bare, rw (read, bare, Targets.apply_status))))
        | inr (meta, e) ↦ elim (Option-cases meta.name) [
          | inl nameless ↦ inr (
              inr (
                inl (meta, bytes, read, e, nameless, rw (read, e, nameless, Targets.apply_status))))
          | inr (name, named) ↦
              inl (meta, name, bytes, e, named, read, rw (read, e, named, Targets.apply_status))
        ]
      ]
      | inr (x, unread) ↦ inr (inl (x, unread, rw (unread, Targets.apply_status)))
    ],
  )

module _ {O Act Any V M LO Sel DO Pt B E W : Type 0}
    (testing : Testing InitTemplate
      (InitTemplateApplyConfiguration O)
      Act
      Any
      V
      M
      LO
      Sel
      DO
      Pt
      B
      E
      W) where
  templates_apply-Applies :
      (cluster_path : Text) (c : InitTemplateApplyConfiguration O) (w : W)
      → Applies testing.marshal
          (Templates.patch testing cluster_path)
          testing.apply_patch_type
          []
          (Templates.apply testing cluster_path)
          c.object_meta
          c
          w
  unfolding Templates.apply Templates.patch
  templates_apply-Applies cluster_path c w = (
    refl,
    elim (Fetched-cases (testing.marshal c)) [
      | inl (bytes, read) ↦ elim (Option-cases c.object_meta) [
        | inl bare ↦ inr (inr (inr (bytes, read, bare, rw (read, bare, Templates.apply))))
        | inr (meta, e) ↦ elim (Option-cases meta.name) [
          | inl nameless ↦
              inr (
                inr (inl (meta, bytes, read, e, nameless, rw (read, e, nameless, Templates.apply))))
          | inr (name, named) ↦
              inl (meta, name, bytes, e, named, read, rw (read, e, named, Templates.apply))
        ]
      ]
      | inr (x, unread) ↦ inr (inl (x, unread, rw (unread, Templates.apply)))
    ],
  )

  templates_apply_status-Applies :
      (cluster_path : Text) (c : InitTemplateApplyConfiguration O) (w : W)
      → Applies testing.marshal
          (Templates.patch testing cluster_path)
          testing.apply_patch_type
          (codes "status" ∷ [])
          (Templates.apply_status testing cluster_path)
          c.object_meta
          c
          w
  unfolding Templates.apply_status Templates.patch
  templates_apply_status-Applies cluster_path c w = (
    refl,
    elim (Fetched-cases (testing.marshal c)) [
      | inl (bytes, read) ↦ elim (Option-cases c.object_meta) [
        | inl bare ↦ inr (inr (inr (bytes, read, bare, rw (read, bare, Templates.apply_status))))
        | inr (meta, e) ↦ elim (Option-cases meta.name) [
          | inl nameless ↦ inr (
              inr (
                inl
                  (meta, bytes, read, e, nameless, rw (read, e, nameless, Templates.apply_status))))
          | inr (name, named) ↦
              inl (meta, name, bytes, e, named, read, rw (read, e, named, Templates.apply_status))
        ]
      ]
      | inr (x, unread) ↦ inr (inl (x, unread, rw (unread, Templates.apply_status)))
    ],
  )

module _ {O Act Any Any' V M LO Sel DO Pt B E W : Type 0}
    (targets : Testing InitTarget (InitTargetApplyConfiguration O) Act Any V M LO Sel DO Pt B E W)
    (templates : Testing InitTemplate
      (InitTemplateApplyConfiguration O)
      Act
      Any'
      V
      M
      LO
      Sel
      DO
      Pt
      B
      E
      W) where
  -- Apply and ApplyStatus of both types agree with one description: without a configuration they
  -- return an error. With one they are Patch of the name in the metadata, with the bytes of the
  -- configuration and the type of apply patches, Apply of the object and ApplyStatus of its status;
  -- but they return the error of the marshaller if the configuration has no bytes, and if it has
  -- bytes, an error for metadata without a name, and they panic for a configuration without
  -- metadata. Where they do not patch, they call nothing of the fake.
  pub apply-Applies :
      (cluster_path : Text) (c : InitTargetApplyConfiguration O)
      (d : InitTemplateApplyConfiguration O) (w : W)
      → Applies targets.marshal
          (Targets.patch targets cluster_path)
          targets.apply_patch_type
          []
          (Targets.apply targets cluster_path)
          c.object_meta
          c
          w
        × Applies targets.marshal
            (Targets.patch targets cluster_path)
            targets.apply_patch_type
            (codes "status" ∷ [])
            (Targets.apply_status targets cluster_path)
            c.object_meta
            c
            w
        × Applies templates.marshal
            (Templates.patch templates cluster_path)
            templates.apply_patch_type
            []
            (Templates.apply templates cluster_path)
            d.object_meta
            d
            w
        × Applies templates.marshal
            (Templates.patch templates cluster_path)
            templates.apply_patch_type
            (codes "status" ∷ [])
            (Templates.apply_status templates cluster_path)
            d.object_meta
            d
            w
  apply-Applies cluster_path c d w = (
    targets_apply-Applies targets cluster_path c w,
    targets_apply_status-Applies targets cluster_path c w,
    templates_apply-Applies templates cluster_path d w,
    templates_apply_status-Applies templates cluster_path d w,
  )
