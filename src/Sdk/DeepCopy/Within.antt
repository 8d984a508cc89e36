-- ===== src/Sdk/DeepCopy/Within.antt =====
-- Addresses that lie in a memory lie in every memory that keeps what it held.
use init_agent.Base.{
  ℕ, zero, suc, ◌<◌, ◌≡◌, refl, sym, ap, ◌∙◌, subst, Option, none, some, List, [], ◌∷◌, All, arith,
  length, get_elem?,
}
use init_agent.Sdk.Types.{TemplateInitSource}
use init_agent.Sdk.DeepCopy.{Memory, InitSourceCell, or_zero, array_at}
use init_agent.Sdk.DeepCopy.Reads.{IsBelow, IsKnown, Keeps}
use init_agent.Sdk.DeepCopy.Slices.{IsWithin}

get_elem?-below :
    {A : Type 0} (xs : List A) (i : ℕ) {x : A} → get_elem? xs i ≡ some x → i < length xs
get_elem?-below [] i e = cc
get_elem?-below (y ∷ xs) zero e = omega arith
get_elem?-below (y ∷ xs) (suc i) e = omega (arith, get_elem?-below xs i e)

below-get_elem? :
    {A : Type 0} (xs : List A) (i : ℕ) → i < length xs → (x : A) × (get_elem? xs i ≡ some x)
below-get_elem? [] i h = absurd (omega arith)
below-get_elem? (y ∷ xs) zero h = (y, refl)
below-get_elem? (y ∷ xs) (suc i) h = below-get_elem? xs i (omega arith)

below-Keeps :
    {A : Type 0} (old new : List A) (i : ℕ) → Keeps old new → i < length old → i < length new
below-Keeps old new i k h =
    let (x, e) = below-get_elem? old i h in get_elem?-below new i (k i h ∙ e)

pub Keeps-trans :
    {A : Type 0} (old mid new : List A) → Keeps old mid → Keeps mid new → Keeps old new
Keeps-trans old mid new k l p h = l p (below-Keeps old mid p k h) ∙ k p h

IsBelow-Keeps :
    {A : Type 0} (old new : List A) (p : Option ℕ)
    → Keeps old new
    → IsBelow (length old) p
    → IsBelow (length new) p
IsBelow-Keeps old new none k h = tt
IsBelow-Keeps old new (some p) k h = below-Keeps old new p k h

All-IsKnown-Keeps :
    (old new : List TemplateInitSource) (sources : List InitSourceCell)
    → Keeps old new
    → All (IsKnown old) sources
    → All (IsKnown new) sources
All-IsKnown-Keeps old new [] k h = tt
All-IsKnown-Keeps old new (s ∷ sources) k h =
    (IsBelow-Keeps old new s.template k h.0, All-IsKnown-Keeps old new sources k h.1)

pub IsWithin-Keeps :
    {H : Type 0} (m m' : Memory H) (slice : Option ℕ)
    → Keeps m.templates m'.templates
    → Keeps m.arrays m'.arrays
    → IsWithin m slice
    → IsWithin m' slice
IsWithin-Keeps m m' none k l h = tt
IsWithin-Keeps m m' (some a) k l h = (
  below-Keeps m.arrays m'.arrays a l h.0,
  subst (All (IsKnown m'.templates)) (ap (or_zero []) (sym (l a h.0)))
      (All-IsKnown-Keeps m.templates m'.templates (array_at m.arrays a) k h.1),
)
