-- ===== src/Sdk/DeepCopy/Reads.antt =====
-- What is read at an address after the memory has grown, and after a write.
use init_agent.Base.{
  ℕ, zero, suc, ◌≤◌, ◌<◌, ◌≡◌, ◌≢◌, refl, ap, ◌∙◌, subst, Option, none, some, List, [], ◌∷◌, ◌++◌,
  map, All, arith, length, get_elem?, length-append,
}
use init_agent.Sdk.Types.{TemplateInitSource}
use init_agent.Sdk.DeepCopy.{InitSourceCell, or_zero, template_at}

module _ {A : Type 0} where
  pub some_inj : {a b : A} → some a ≡ some b → a ≡ b
  some_inj e = cc

  -- A write to an address.
  abbrev pub set : List A → ℕ → A → List A
  set [] i v = []
  set (x ∷ xs) zero v = v ∷ xs
  set (x ∷ xs) (suc i) v = x ∷ set xs i v

  pub get_elem?-append :
      (xs ys : List A) (i : ℕ) → i < length xs → get_elem? (xs ++ ys) i ≡ get_elem? xs i
  get_elem?-append [] ys i h = absurd (omega arith)
  get_elem?-append (x ∷ xs) ys zero h = refl
  get_elem?-append (x ∷ xs) ys (suc i) h = get_elem?-append xs ys i (omega arith)

  pub get_elem?-snoc : (xs ys : List A) (x : A) → get_elem? (xs ++ x ∷ ys) (length xs) ≡ some x
  get_elem?-snoc [] ys x = refl
  get_elem?-snoc (y ∷ xs) ys x = get_elem?-snoc xs ys x

  pub get_elem?-set_other :
      (xs : List A) (i j : ℕ) (v : A) → i ≢ j → get_elem? (set xs i v) j ≡ get_elem? xs j
  get_elem?-set_other [] i j v h = refl
  get_elem?-set_other (x ∷ xs) zero zero v h = absurd (h refl)
  get_elem?-set_other (x ∷ xs) zero (suc j) v h = refl
  get_elem?-set_other (x ∷ xs) (suc i) zero v h = refl
  get_elem?-set_other (x ∷ xs) (suc i) (suc j) v h =
      get_elem?-set_other xs i j v (λ e. h (ap suc e))

  -- What stands at every address of `old` stands there in `new`.
  abbrev pub Keeps : List A → List A → Type 0
  Keeps old new = (p : ℕ) → p < length old → get_elem? new p ≡ get_elem? old p

  pub Keeps-grown : (old more new : List A) → new ≡ old ++ more → Keeps old new
  Keeps-grown old more new e p h = ap (λ l. get_elem? l p) e ∙ get_elem?-append old more p h

  pub Keeps-set :
      (old new : List A) (p : ℕ) (v : A) → Keeps old new → length old ≤ p → Keeps old (set new p v)
  Keeps-set old new p v k h q l = get_elem?-set_other new p q v (λ e. omega arith) ∙ k q l

  pub le-grown : (old more new : List A) → new ≡ old ++ more → length old ≤ length new
  le-grown old more new e = omega (arith, ap length e, length-append {0} old more)

  pub All-get_elem? :
      (P : A → Type 0) (xs : List A) (i : ℕ) {x : A} → All P xs → get_elem? xs i ≡ some x → P x
  All-get_elem? P [] i h e = cc
  All-get_elem? P (y ∷ xs) zero h e = subst P (some_inj e) h.0
  All-get_elem? P (y ∷ xs) (suc i) h e = All-get_elem? P xs i h.1 e

-- What an InitSource says, and whether its pointer lies in the memory, or beyond `n` addresses.
abbrev pub said_by : List TemplateInitSource → Option ℕ → Option TemplateInitSource
said_by templates none = none
said_by templates (some p) = some (template_at templates p)

abbrev pub source_said : List TemplateInitSource → InitSourceCell → Option TemplateInitSource
source_said templates source = said_by templates source.template

abbrev pub IsBelow : ℕ → Option ℕ → Type 0
IsBelow n none = Unit
IsBelow n (some p) = p < n

abbrev pub IsFresh : ℕ → Option ℕ → Type 0
IsFresh n none = Unit
IsFresh n (some p) = n ≤ p

abbrev pub IsKnown : List TemplateInitSource → InitSourceCell → Type 0
IsKnown templates source = IsBelow (length templates) source.template

pub said_by-Keeps :
    (old new : List TemplateInitSource) (template : Option ℕ)
    → Keeps old new
    → IsBelow (length old) template
    → said_by new template ≡ said_by old template
said_by-Keeps old new none k h = refl
said_by-Keeps old new (some p) k h = ap (λ o. some (or_zero (record { name = [] }) o)) (k p h)

pub map_said-Keeps :
    (old new : List TemplateInitSource) (sources : List InitSourceCell)
    → Keeps old new
    → All (IsKnown old) sources
    → map (source_said new) sources ≡ map (source_said old) sources
map_said-Keeps old new [] k h = refl
map_said-Keeps old new (source ∷ sources) k h =
    cc (said_by-Keeps old new source.template k h.0, map_said-Keeps old new sources k h.1)
