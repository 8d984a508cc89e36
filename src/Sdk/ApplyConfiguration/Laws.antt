-- ===== src/Sdk/ApplyConfiguration/Laws.antt =====
-- Maps and lists that the builders extend.
use init_agent.Base.{
  ◌≡◌, refl, sym, ◌∙◌, ap, Option, none, some, List, [], ◌∷◌, ◌++◌, append_assoc, append-nil, map,
  arith, Text, text_eq_iff,
}
use init_agent.Go.Maps.{Map, lookup, insert, lookup-insert}
use init_agent.Sdk.ApplyConfiguration.{
  InitTargetApplyConfiguration, InitTargetSpecApplyConfiguration, InitSourceApplyConfiguration,
  ensured, append_all, put_entries, put_into, with_labels, with_sources,
}

-- A Go map holds a key once.
abbrev pub IsMap : {V : Type 0} → Map V → Type 0
IsMap [] = Unit
IsMap ((k, v) ∷ m) = (lookup k m ≡ none) × IsMap m

abbrev pub or_else : {V : Type 0} → Option V → Option V → Option V
or_else none o = o
or_else (some v) o = some v

abbrev pub entries_of : Option (Map Text) → Map Text
entries_of none = []
entries_of (some m) = m

lookup-put_entries :
    (key : Text) (m entries : Map Text)
    → IsMap entries
    → lookup key (put_entries m entries) ≡ or_else (lookup key entries) (lookup key m)
unfolding put_entries lookup
lookup-put_entries key m [] h = refl
lookup-put_entries key m ((k, v) ∷ entries) h = ground (
  arith,
  lookup-put_entries key (insert k v m) entries h.1,
  lookup-insert k key v m,
  text_eq_iff k key,
)

lookup-put_into :
    (key : Text) (labels : Option (Map Text)) (entries : Map Text)
    → IsMap entries
    → lookup key (entries_of (put_into labels entries))
      ≡ or_else (lookup key entries) (lookup key (entries_of labels))
unfolding put_into
lookup-put_into key none [] h = unfold lookup in refl
lookup-put_into key none ((k, v) ∷ entries) h = lookup-put_entries key [] ((k, v) ∷ entries) h
lookup-put_into key (some m) entries h = lookup-put_entries key m entries h

module _ {O : Type 0} (b : InitTargetApplyConfiguration O) where
  -- WithLabels puts its entries over the labels that are there: each key has the value of the
  -- call if it has one there, and else the value that it had. With no entries a nil map stays nil.
  pub with_labels_lem :
      (entries : Map Text)
      → IsMap entries
      → ((key : Text)
          → lookup key (entries_of (ensured (with_labels entries b).object_meta).labels)
            ≡ or_else (lookup key entries) (lookup key (entries_of (ensured b.object_meta).labels)))
        × ((ensured b.object_meta).labels ≡ none
            → (ensured (with_labels [] b).object_meta).labels ≡ none)
  unfolding with_labels
  with_labels_lem entries h = (
    λ key. lookup-put_into key (ensured b.object_meta).labels entries h,
    λ nil. unfold put_into in rw nil,
  )

pub append_all_lem :
    {A : Type 0} (l values : List A) → append_all l (map some values) ≡ some (l ++ values)
unfolding append_all
append_all_lem l [] = ap some (sym (append-nil l))
append_all_lem l (v ∷ values) =
    append_all_lem (l ++ v ∷ []) values ∙ ap some (append_assoc l (v ∷ []) values)

-- A nil among the values makes the call panic.
pub append_all-nil :
    {A : Type 0} (l before : List A) (rest : List (Option A))
    → append_all l (map some before ++ none ∷ rest) ≡ none
unfolding append_all
append_all-nil l [] rest = refl
append_all-nil l (v ∷ before) rest = append_all-nil (l ++ v ∷ []) before rest

-- WithSources appends its values to the sources in their order, over several calls too, and
-- panics on a nil value wherever it stands.
pub with_sources_lem :
    (b : InitTargetSpecApplyConfiguration) (values : List InitSourceApplyConfiguration)
    (rest : List (Option InitSourceApplyConfiguration))
    → (with_sources (map some values) b ≡ some (record b { sources = b.sources ++ values }))
      × (with_sources (map some values ++ none ∷ rest) b ≡ none)
unfolding with_sources
with_sources_lem b values rest =
    (rw (append_all_lem b.sources values), rw (append_all-nil b.sources values rest))
