-- ===== src/Cmd/Main/Started.antt =====
-- What main does from the command line on.
use init_agent.Base.{ℕ, ◌≡◌, Bool, false, true, ◌⊎◌, Option, some, List, [], ◌∷◌, All, Text}
use init_agent.Go.Flags.{Variable, Flag, bool_var, string_var, var}
use init_agent.Go.Strings.{is_empty}
use init_agent.Remote.{found}
use init_agent.Kcp.Rest.{RestConfig}
use init_agent.Effect.{panicked}
use init_agent.Log
use init_agent.Log.{validate as validate_log, set}
use init_agent.Cmd.Options.{
  Options, OptionError, new_options, add_flags, validate, IsValid, is_log_error,
}
use init_agent.Cmd.Main.{Libraries, Ending, invalid_options, ran, run, main}

module _ {O : Type 0} where
  -- One value on the command line writes one variable.
  abbrev pub Writes : Variable O → O → O → Type 0
  Writes (bool_var b write) o o' = (value : Bool) × (o' ≡ write value o)
  Writes (string_var s write) o o' = (value : Text) × (o' ≡ write value o)
  Writes (var text set) o o' = (value : Text) × (set value o ≡ some o')

  abbrev pub WritesOne : List (Flag O) → O → O → Type 0
  WritesOne [] o o' = ⊥
  WritesOne (flag ∷ flags) o o' = Writes flag.variable o o' ⊎ WritesOne flags o o'

  -- What pflag.Parse does to the variables: one value after the other, for registered flags.
  pub data Parsed (flags : List (Flag O)) (o : O) : O → Type 0 where
    unset : Parsed flags o o
    written : {v w : O} → Parsed flags o v → WritesOne flags v w → Parsed flags o w

module _ {Sel : Type 0} (unicode : ℕ → ℕ) (everything : Sel) where
  -- Options that flags cannot spoil: a known log format, and the selector still the default.
  Sound : Options Sel → Type 0
  Sound o = (validate_log o.log_options ≡ false) × (o.init_target_selector ≡ some everything)

module _ {E Sel R M : Type 0} (libraries : Libraries E Sel R M) (cfg : RestConfig R) where
  module _ (unicode : ℕ → ℕ) (everything : Sel)
      (parse_flags : List (Flag (Options Sel)) → Options Sel → Option (Options Sel)) where
    abbrev pub flags_result : Option (Options Sel)
    flags_result = parse_flags (add_flags unicode (new_options everything)) (new_options everything)

    abbrev pub ending : Ending E
    ending = main libraries unicode everything parse_flags (some cfg)

    -- The selector of the options: all targets if the text of none is given, and else the parsed one.
    abbrev pub IsChosen : Options Sel → Sel → Type 0
    IsChosen o sel =
        ((is_empty o.init_target_selector_string ≡ true) × (sel ≡ everything))
        ⊎ (libraries.parse o.init_target_selector_string ≡ found sel)

    -- What main does with the options that the flags have set.
    abbrev pub EndsWith : Options Sel → Type 0
    EndsWith o =
        ((errors : List (OptionError E)) × (ending ≡ invalid_options errors)
          × (validate libraries.parse o ≡ errors)
          × All (λ e. is_log_error e ≡ false) errors)
        ⊎ ((sel : Sel) × IsValid libraries.parse o
            × IsChosen o sel
            × let outcome =
                (run libraries cfg (record o { init_target_selector = some sel }) []).0 in
              (ending ≡ ran outcome) × ¬ (outcome ≡ panicked))
