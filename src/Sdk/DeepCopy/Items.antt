-- ===== src/Sdk/DeepCopy/Items.antt =====
-- The deep copies of the items of a list, whatever they are.
use init_agent.Base.{◌≡◌, refl, ◌∙◌, List, [], ◌∷◌, map, All}
use init_agent.Sdk.DeepCopy.{Memory}
use init_agent.Sdk.DeepCopy.Lists.{items_into}

-- What lies in the old memory says the same in the new one, and lies in it.
abbrev pub Preserves : {H X B : Type 0} → (H → X → Type 0) → (H → X → B) → H → H → Type 0
Preserves {H} {X} lies says h h' = (x : X) → lies h x → (says h' x ≡ says h x) × lies h' x

-- A copy says what the original said, and lies in the new memory.
abbrev pub IsCopy : {H X B : Type 0} → (H → X → Type 0) → (H → X → B) → X → H → X × H → Type 0
IsCopy lies says x h (x', h') = (says h' x' ≡ says h x) × lies h' x'

module _ {H X B L C : Type 0} (lies : Memory H → X → Type 0) (says : Memory H → X → B)
    (list_lies : H → L → Type 0) (list_says : H → L → C) where
  -- What lay in one memory, items and metadata of lists, says the same in the other.
  pub record Untouched (m m' : Memory H) : Type 0 where
    pub items : (x : X) → lies m x → says m' x ≡ says m x
    pub metas : (l : L) → list_lies m.library l → list_says m'.library l ≡ list_says m.library l

  -- `later` is how a memory grows by copies, and `wrote m x m'` a write to a part of the memory `m`
  -- that the item `x` reaches. Then no write through this item, now or later, touches what lay in
  -- the memory `m`.
  abbrev pub Apart :
      (Memory H → Memory H → Type 0)
      → (Memory H → X → Memory H → Type 0)
      → Memory H
      → Memory H
      → X
      → Type 0
  Apart later wrote m now x = (m₂ m₃ : Memory H) → later now m₂ → wrote m₂ x m₃ → Untouched m m₃

module _ {H X B L C : Type 0} (item_into : X → Memory H → X × Memory H)
    (copy_list_meta : L → H → L × H) (lies : Memory H → X → Type 0) (says : Memory H → X → B)
    (list_lies : H → L → Type 0) (list_says : H → L → C) (later : Memory H → Memory H → Type 0)
    (wrote : Memory H → X → Memory H → Type 0) where
  -- DeepCopyInto of the items and of the metadata of a list: what their copies say, how they let the
  -- memory grow, and that the copy of an item shares nothing with what was there.
  pub record AreCopies : Type 0 where
    pub item_copied : (x : X) (m : Memory H) → lies m x → IsCopy lies says x m (item_into x m)
    pub item_later : (x : X) (m : Memory H) → lies m x → later m (item_into x m).1
    pub item_apart :
        (x : X) (m : Memory H)
        → lies m x
        → Apart lies says list_lies list_says later wrote m (item_into x m).1 (item_into x m).0
    pub list_copied :
        (l : L) (h : H) → list_lies h l → IsCopy list_lies list_says l h (copy_list_meta l h)
    pub list_later :
        (l : L) (m : Memory H)
        → list_lies m.library l
        → later m (record m { library = (copy_list_meta l m.library).1 })
    pub unchanged : (m : Memory H) → later m m
    pub after : (m m₁ m₂ : Memory H) → later m m₁ → later m₁ m₂ → later m m₂
    pub kept : (m m₁ : Memory H) → later m m₁ → Preserves lies says m m₁
    pub metas_kept :
        (m m₁ : Memory H) → later m m₁ → Preserves list_lies list_says m.library m₁.library

pub All-Preserves :
    {H X B : Type 0} (lies : H → X → Type 0) (says : H → X → B) (h h' : H) (xs : List X)
    → Preserves lies says h h'
    → All (lies h) xs
    → (map (says h') xs ≡ map (says h) xs) × All (lies h') xs
All-Preserves lies says h h' [] k a = (refl, tt)
All-Preserves lies says h h' (x ∷ xs) k a =
    let (same, still) = k x a.0 in
    let (rest, lie) = All-Preserves lies says h h' xs k a.1 in (cc (same, rest), (still, lie))

module _ {H X B L C : Type 0} (item_into : X → Memory H → X × Memory H)
    (copy_list_meta : L → H → L × H) (lies : Memory H → X → Type 0) (says : Memory H → X → B)
    (list_lies : H → L → Type 0) (list_says : H → L → C) (later : Memory H → Memory H → Type 0)
    (wrote : Memory H → X → Memory H → Type 0)
    (law : AreCopies item_into copy_list_meta lies says list_lies list_says later wrote) where
  -- What is apart from a later memory is apart from an earlier one.
  Untouched-before :
      (m m₁ m₃ : Memory H)
      → later m m₁
      → Untouched lies says list_lies list_says m₁ m₃
      → Untouched lies says list_lies list_says m m₃
  Untouched-before m m₁ m₃ l h = record {
    items = λ x a. let (same, lie) = law.kept m m₁ l x a in h.items x lie ∙ same;
    metas = λ x a. let (same, lie) = law.metas_kept m m₁ l x a in h.metas x lie ∙ same;
  }

  pub All-Apart-before :
      (m m₁ now : Memory H) (xs : List X)
      → later m m₁
      → All (Apart lies says list_lies list_says later wrote m₁ now) xs
      → All (Apart lies says list_lies list_says later wrote m now) xs
  All-Apart-before m m₁ now [] l a = tt
  All-Apart-before m m₁ now (x ∷ xs) l a = (
    λ m₂ m₃ grown written. Untouched-before m m₁ m₃ l (a.0 m₂ m₃ grown written),
    All-Apart-before m m₁ now xs l a.1,
  )

  pub record ItemsCopied (items : List X) (m : Memory H) (items' : List X) (m' : Memory H)
      : Type 0 where
    pub same : map (says m') items' ≡ map (says m) items
    pub grown : later m m'
    pub apart : All (Apart lies says list_lies list_says later wrote m m') items'

  pub items_into-ItemsCopied :
      (items : List X) (m : Memory H)
      → All (lies m) items
      → ItemsCopied items m (items_into item_into items m).0 (items_into item_into items m).1
  unfolding items_into
  items_into-ItemsCopied [] m h = record { same = refl; grown = law.unchanged m; apart = tt }
  items_into-ItemsCopied (item ∷ items) m h =
      let m' = (item_into item m).1 in
      let step = law.item_later item m h.0 in
      let (others, lie) = All-Preserves lies says m m' items (law.kept m m' step) h.1 in
      let rest = items_into-ItemsCopied items m' lie in
      let m'' = (items_into item_into items m').1 in
      let (copied, lies_there) = law.item_copied item m h.0 in
      record {
        same = cc (
          (law.kept m' m'' rest.grown (item_into item m).0 lies_there).0,
          copied,
          rest.same,
          others,
        );
        grown = law.after m m' m'' step rest.grown;
        apart = (
          λ m₂ m₃ grown written.
              law.item_apart item m h.0 m₂ m₃ (law.after m' m'' m₂ rest.grown grown) written,
          All-Apart-before m m' m'' (items_into item_into items m').0 step rest.apart,
        );
      }
