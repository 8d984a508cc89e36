-- ===== src/Log/Laws.antt =====
-- What the flag accepts, and how the available formats are printed.
use init_agent.Base.{
  sym, subst, inl, inr, ℕ, ◌≡◌, refl, Bool, false, some, List, [], ◌∷◌, ◌++◌, ◌⊎◌, arith, Text,
  codes, text_eq_iff,
}
use init_agent.Go.Strings.{to_lower}
use init_agent.Log.{Format, format_json, format_console, set_lower, set, separator, validate}

set_lower_cases :
    (lower : Text) (f : Format)
    → set_lower lower ≡ some f
    → ((lower ≡ codes "json") × (f ≡ format_json))
      ⊎ ((lower ≡ codes "console") × (f ≡ format_console))
unfolding set_lower
set_lower_cases lower f h =
    ground (arith, text_eq_iff lower (codes "json"), text_eq_iff lower (codes "console"))

abbrev IsAccepted : (ℕ → ℕ) → Bool → Format → Type 0
IsAccepted unicode debug f =
    (validate (record { debug = debug; format = f }) ≡ false) × (set unicode f ≡ some f)

format_json-IsAccepted : (unicode : ℕ → ℕ) (debug : Bool) → IsAccepted unicode debug format_json
unfolding set validate
format_json-IsAccepted unicode debug = (refl, refl)

format_console-IsAccepted :
    (unicode : ℕ → ℕ) (debug : Bool) → IsAccepted unicode debug format_console
unfolding set validate
format_console-IsAccepted unicode debug = (refl, refl)

-- What the flag accepts is "json" or "console" in any case; the value that it sets passes
-- Validate, and setting the flag to the value that it prints keeps that value.
pub set-validate :
    (unicode : ℕ → ℕ) (s : Text) (debug : Bool) (f : Format)
    → set unicode s ≡ some f
    → (validate (record { debug = debug; format = f }) ≡ false)
      × (set unicode f ≡ some f)
      × ((to_lower unicode s ≡ codes "json") ⊎ (to_lower unicode s ≡ codes "console"))
set-validate unicode s debug f h = elim (set_lower_cases (to_lower unicode s) f (unfold set in h)) [
  | inl (l, e) ↦
      let a = subst (IsAccepted unicode debug) (sym e) (format_json-IsAccepted unicode debug) in
      (a.0, a.1, inl l)
  | inr (l, e) ↦
      let a = subst (IsAccepted unicode debug) (sym e) (format_console-IsAccepted unicode debug) in
      (a.0, a.1, inr l)
]

-- The formats one after the other, each after the first behind the separator.
abbrev listed : List Format → Text
listed [] = []
listed (format ∷ formats) = separator ++ (format ++ listed formats)
