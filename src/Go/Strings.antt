-- ===== src/Go/Strings.antt =====
-- strings.TrimRight with one character, strings.TrimPrefix, strings.ToLower.
use init_agent.Base.{
  ℕ, ◌+◌, ◌≡◌, refl, Bool, true, false, ◌&&◌, Option, none, some, [], ◌∷◌, ◌++◌, arith, Text, ◌==◌,
  ltb, leb, if◌then◌else◌,
}

abbrev pub is_empty : Text → Bool
is_empty [] = true
is_empty (c ∷ s) = false

-- strings.TrimRight(s, cut) for a cutset of one character.
unfoldable pub trim_right : ℕ → Text → Text
trim_right cut [] = []
trim_right cut (c ∷ s) =
    let rest = trim_right cut s in if is_empty rest && c == cut then [] else c ∷ rest

pub trim_right_idem : (cut : ℕ) (s : Text) → trim_right cut (trim_right cut s) ≡ trim_right cut s
unfolding trim_right
trim_right_idem cut [] = refl
trim_right_idem cut (c ∷ s) = ground (arith, trim_right_idem cut s)

-- A text that ends in one cut character loses it.
pub trim_right-snoc : (cut : ℕ) (s : Text) → trim_right cut (s ++ cut ∷ []) ≡ trim_right cut s
unfolding trim_right
trim_right-snoc cut [] = ground arith
trim_right-snoc cut (c ∷ s) = ground (arith, trim_right-snoc cut s)

-- What follows a prefix.
unfoldable pub cut_prefix : Text → Text → Option Text
cut_prefix [] s = some s
cut_prefix (p ∷ ps) [] = none
cut_prefix (p ∷ ps) (c ∷ s) = let rest = cut_prefix ps s in if p == c then rest else none

abbrev otherwise : Text → Option Text → Text
otherwise s none = s
otherwise s (some rest) = rest

unfoldable pub trim_prefix : Text → Text → Text
unfolding cut_prefix
trim_prefix s p = otherwise s (cut_prefix p s)

pub cut_prefix-append : (p s : Text) → cut_prefix p (p ++ s) ≡ some s
unfolding cut_prefix
cut_prefix-append [] s = refl
cut_prefix-append (c ∷ p) s = ground (arith, cut_prefix-append p s)

-- strings.ToLower. Above ASCII the mapping is that of the package unicode, a parameter.
unfoldable pub lower_rune : (ℕ → ℕ) → ℕ → ℕ
lower_rune unicode c =
    if ltb c 128 then (if leb b'A' c && leb c b'Z' then c + 32 else c) else unicode c

unfoldable pub to_lower : (ℕ → ℕ) → Text → Text
unfolding lower_rune
to_lower unicode [] = []
to_lower unicode (c ∷ s) = lower_rune unicode c ∷ to_lower unicode s
