-- ===== src/Sdk/DeepCopy/Arrays.antt =====
-- The deep copy of a list and of its array, whatever its items are.
use init_agent.Base.{
  ℕ, ◌<◌, ◌≡◌, refl, sym, ap, ◌∙◌, subst, Option, none, some, List, [], ◌∷◌, ◌++◌, map, All, arith,
  length, get_elem?,
}
use init_agent.Sdk.DeepCopy.{Memory, or_zero, deep_copy}
use init_agent.Sdk.DeepCopy.Reads.{
  set, Keeps, Keeps-grown, Keeps-set, get_elem?-snoc, IsFresh, some_inj, All-get_elem?,
}
use init_agent.Sdk.DeepCopy.Lists.{ListCell, ListMemory, items_into, array_into, list_into}
use init_agent.Sdk.DeepCopy.Items.{
  Preserves, Untouched, Apart, AreCopies, All-Preserves, items_into-ItemsCopied,
}

abbrev array : {X : Type 0} → List (List X) → ℕ → List X
array arrays a = or_zero [] (get_elem? arrays a)

-- What a list says: its metadata, and its items unless their slice is nil.
abbrev pub items_said :
    {W X B : Type 0} → (W → X → B) → W → List (List X) → Option ℕ → Option (List B)
items_said says m arrays none = none
items_said says m arrays (some a) = some (map (says m) (array arrays a))

abbrev pub list_said :
    {H X B L C : Type 0}
    → (Memory H → X → B)
    → (H → L → C)
    → ListMemory H X
    → ListCell L
    → C × Option (List B)
list_said says list_says m list =
    (list_says m.memory.library list.meta, items_said says m.memory m.arrays list.items)

-- The array of a list and its items lie in the memory.
abbrev pub AreIn : {W X : Type 0} → (W → X → Type 0) → W → List (List X) → Option ℕ → Type 0
AreIn lies m arrays none = Unit
AreIn lies m arrays (some a) = (a < length arrays) × All (lies m) (array arrays a)

module _ {H X B L C : Type 0}
    (copies : Option (ListCell L) → ListMemory H X → Option (ListCell L) × ListMemory H X)
    (says : Memory H → X → B) (list_says : H → L → C)
    (wrote : Memory H → X → Memory H → Type 0) where
  -- DeepCopy of a list: nil for nil; else a list that says the same, and the original says what it
  -- said, also after a write to the array of the copy, and after a write to a part of the memory
  -- that an item of the copy reaches.
  abbrev pub ListCopied : ListCell L → ListMemory H X → Type 0
  ListCopied list m =
      let said = list_said says list_says in
      (copies none m ≡ (none, m))
      × (copy : ListCell L) × (m' : ListMemory H X) × (copies (some list) m ≡ (some copy, m'))
      × (said m' copy ≡ said m list)
      × (said m' list ≡ said m list)
      × ((a : ℕ) (items : List X)
          → copy.items ≡ some a
          → said (record m' { arrays = set m'.arrays a items }) list ≡ said m list)
      × ((a i : ℕ) (item : X) (memory : Memory H)
          → copy.items ≡ some a
          → get_elem? (array m'.arrays a) i ≡ some item
          → wrote m'.memory item memory
          → said (record m' { memory = memory }) list ≡ said m list)

module _ {H X B L C : Type 0} (item_into : X → Memory H → X × Memory H)
    (copy_list_meta : L → H → L × H) (lies : Memory H → X → Type 0) (says : Memory H → X → B)
    (list_lies : H → L → Type 0) (list_says : H → L → C) (later : Memory H → Memory H → Type 0)
    (wrote : Memory H → X → Memory H → Type 0)
    (law : AreCopies item_into copy_list_meta lies says list_lies list_says later wrote) where
  -- What a slice of items says where nothing that it reaches was touched.
  items_said-Untouched :
      (xs : List X) (m m' : Memory H)
      → All (lies m) xs
      → Untouched lies says list_lies list_says m m'
      → map (says m') xs ≡ map (says m) xs
  items_said-Untouched [] m m' a h = refl
  items_said-Untouched (x ∷ xs) m m' a h = cc (h.items x a.0, items_said-Untouched xs m m' a.1 h)

  -- What the copy of a slice of items leaves behind.
  record ArrayCopied (slice : Option ℕ) (m : ListMemory H X) (slice' : Option ℕ)
      (m' : ListMemory H X) : Type 0 where
    same : items_said says m'.memory m'.arrays slice' ≡ items_said says m.memory m.arrays slice
    original :
        (arrays : List (List X)) (memory : Memory H)
        → Keeps m.arrays arrays
        → Untouched lies says list_lies list_says m.memory memory
        → items_said says memory arrays slice ≡ items_said says m.memory m.arrays slice
    grown : later m.memory m'.memory
    keeps : Keeps m.arrays m'.arrays
    fresh : IsFresh (length m.arrays) slice'
    apart :
        (a : ℕ)
        → slice' ≡ some a
        → All
            (Apart lies says list_lies list_says later wrote m.memory m'.memory)
            (array m'.arrays a)

  array_into-ArrayCopied :
      (slice : Option ℕ) (m : ListMemory H X)
      → AreIn lies m.memory m.arrays slice
      → ArrayCopied slice m (array_into item_into slice m).0 (array_into item_into slice m).1
  unfolding array_into
  array_into-ArrayCopied none m h = record {
    same = refl;
    original = λ arrays memory k u. refl;
    grown = law.unchanged m.memory;
    keeps = λ p l. refl;
    fresh = tt;
    apart = λ a e. cc;
  }
  array_into-ArrayCopied (some a) m h =
      let items = array m.arrays a in
      let c =
        items_into-ItemsCopied item_into copy_list_meta lies says list_lies list_says later wrote
          law items m.memory h.1 in
      let (items', memory) = items_into item_into items m.memory in
      let last = ap (or_zero []) (get_elem?-snoc m.arrays [] items') in
      record {
        same = ap (λ l. some (map (says memory) l)) last ∙ ap some c.same;
        original = λ arrays memory' k u.
            ap (λ o. some (map (says memory') (or_zero [] o))) (k a h.0)
            ∙ ap some (items_said-Untouched items m.memory memory' h.1 u);
        grown = c.grown;
        keeps = Keeps-grown m.arrays (items' ∷ []) (m.arrays ++ items' ∷ []) refl;
        fresh = omega arith;
        apart = λ b e.
            subst
              (λ k.
                All (Apart lies says list_lies list_says later wrote m.memory memory)
                  (array (m.arrays ++ items' ∷ []) k))
              (some_inj e)
              (subst (All (Apart lies says list_lies list_says later wrote m.memory memory))
                (sym last) c.apart);
      }

  said_begun :
      (arrays : List (List X)) (slice : Option ℕ) (m m' : Memory H)
      → AreIn lies m arrays slice
      → Preserves lies says m m'
      → (items_said says m' arrays slice ≡ items_said says m arrays slice)
        × AreIn lies m' arrays slice
  said_begun arrays none m m' h k = (refl, tt)
  said_begun arrays (some a) m m' h k =
      let (same, lie) = All-Preserves lies says m m' (array arrays a) k h.1 in
      (ap some same, (h.0, lie))

  later-Untouched : (m m' : Memory H) → later m m' → Untouched lies says list_lies list_says m m'
  later-Untouched m m' l = record {
    items = λ x a. (law.kept m m' l x a).0;
    metas = λ x a. (law.metas_kept m m' l x a).0;
  }

  pub list_into-ListCopied :
      (list : ListCell L) (m : ListMemory H X)
      → list_lies m.memory.library list.meta
      → AreIn lies m.memory m.arrays list.items
      → ListCopied (deep_copy (list_into item_into copy_list_meta)) says list_says wrote list m
  unfolding deep_copy list_into
  list_into-ListCopied list m l h =
      let (meta, library) = copy_list_meta list.meta m.memory.library in
      let begun = record m.memory { library = library } in
      let step = law.list_later list.meta m.memory l in
      let (same, lie) =
        said_begun m.arrays list.items m.memory begun h (law.kept m.memory begun step) in
      let c = array_into-ArrayCopied list.items (record m { memory = begun }) lie in
      let (copied, lies_there) = law.list_copied list.meta m.memory.library l in
      let (still, remains) = law.metas_kept m.memory begun step list.meta l in
      let (items, m') = array_into item_into list.items (record m { memory = begun }) in
      let grown = later-Untouched begun m'.memory c.grown in
      let meta_same = grown.metas meta lies_there ∙ copied in
      let meta_still = grown.metas list.meta remains ∙ still in
      (
        refl,
        record { meta = meta; items = items },
        m',
        refl,
        λ i. (meta_same i, (c.same ∙ same) i),
        λ i. (meta_still i, (c.original m'.arrays m'.memory c.keeps grown ∙ same) i),
        λ a written e i. (
          meta_still i,
          (c.original (set m'.arrays a written) m'.memory
                  (Keeps-set m.arrays m'.arrays a written c.keeps
                    (subst (IsFresh (length m.arrays)) e c.fresh))
                  grown
                ∙ same)
              i,
        ),
        λ a k item memory e at written.
            let untouched =
              All-get_elem? _ (array m'.arrays a) k (c.apart a e) at m'.memory memory
                (law.unchanged m'.memory) written in
            λ i. (
              (untouched.metas list.meta remains ∙ still) i,
              (c.original m'.arrays memory c.keeps untouched ∙ same) i,
            ),
      )
