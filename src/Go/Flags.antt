-- ===== src/Go/Flags.antt =====
-- The registration of flags in a flag.FlagSet or a pflag.FlagSet, for options `O`.
use init_agent.Base.{Bool, Option, none, some, Text}

-- BoolVar and StringVar, with the default and what writes the variable; and Var of a flag.Value,
-- with the text of the value and its Set, where `none` is an error.
pub data Variable (O : Type 0) : Type 0 where
  bool_var : Bool → (Bool → O → O) → Variable O
  string_var : Text → (Text → O → O) → Variable O
  var : Text → (Text → O → Option O) → Variable O

pub record Flag (O : Type 0) : Type 0 where
  pub name : Text
  pub variable : Variable O
  pub usage : Text

module _ {O P : Type 0} (get : P → O) (put : O → P → P) where
  abbrev pub set_part : P → Option O → Option P
  set_part p none = none
  set_part p (some o) = some (put o p)

  -- A variable in a part of the options.
  abbrev pub part : Variable O → Variable P
  part (bool_var b write) = bool_var b (λ b p. put (write b (get p)) p)
  part (string_var s write) = string_var s (λ s p. put (write s (get p)) p)
  part (var text set) = var text (λ s p. set_part p (set s (get p)))
