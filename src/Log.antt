-- ===== src/Log.antt =====
-- internal/log/zap.go: the log options and the format flag.
pub mod Laws
use init_agent.Base.{
  ℕ, Bool, true, false, not, Option, none, some, List, [], ◌∷◌, ◌++◌, Text, text_eq, codes,
  if◌then◌else◌,
}
use init_agent.Go.Strings.{to_lower, trim_prefix}
use init_agent.Go.Slices.{contains}
use init_agent.Go.Flags.{Flag, bool_var, var}

abbrev pub Format : Type 0
Format = Text

abbrev pub format_json : Format
format_json = codes "JSON"

abbrev pub format_console : Format
format_console = codes "Console"

abbrev pub available_formats : List Format
available_formats = format_json ∷ format_console ∷ []

pub record Options : Type 0 where
  pub debug : Bool
  pub format : Format

abbrev pub new_default_options : Options
new_default_options = record { debug = false; format = format_json }

-- The `switch` of Set on the lower-case text.
unfoldable pub set_lower : Text → Option Format
unfolding text_eq
set_lower lower =
    if text_eq lower (codes "json")
    then some format_json
    else if text_eq lower (codes "console")
    then some format_console
    else none

-- Set: the new value of the flag, or `none` for the error.
unfoldable pub set : (ℕ → ℕ) → Text → Option Format
unfolding to_lower set_lower
set unicode s = set_lower (to_lower unicode s)

abbrev separator : Text
separator = codes ", "

-- `s = s + separator + string(format)`
joined : Text → List Format → Text
joined s [] = s
joined s (format ∷ formats) = joined (s ++ (separator ++ format)) formats

-- String of Formats.
unfoldable pub formats_string : List Format → Text
unfolding joined trim_prefix
formats_string formats = trim_prefix (joined [] formats) separator

unfoldable pub set_format : Option Format → Options → Option Options
set_format none o = none
set_format (some f) o = some (record o { format = f })

-- AddFlags: the flags that are registered, in order; `unicode` is unicode.ToLower.
unfoldable pub add_flags : (ℕ → ℕ) → Options → List (Flag Options)
unfolding set_format set formats_string
add_flags unicode o =
    record {
      name = codes "log-debug";
      variable = bool_var o.debug (λ b o. record o { debug = b });
      usage = codes "Enables more verbose logging";
    }
    ∷ record {
      name = codes "log-format";
      variable = var o.format (λ s o. set_format (set unicode s) o);
      usage = codes "Log format, one of " ++ formats_string available_formats;
    }
    ∷ []

-- AddPFlags, the same for a pflag.FlagSet.
unfoldable pub add_p_flags : (ℕ → ℕ) → Options → List (Flag Options)
unfolding set_format set formats_string
add_p_flags unicode o =
    record {
      name = codes "log-debug";
      variable = bool_var o.debug (λ b o. record o { debug = b });
      usage = codes "Enables more verbose logging";
    }
    ∷ record {
      name = codes "log-format";
      variable = var o.format (λ s o. set_format (set unicode s) o);
      usage = codes "Log format, one of " ++ formats_string available_formats;
    }
    ∷ []

-- Contains of Formats.
unfoldable pub formats_contains : List Format → Format → Bool
unfolding contains
formats_contains formats s = contains formats s

-- Validate: whether it returns an error.
unfoldable pub validate : Options → Bool
unfolding formats_contains
validate o = not (formats_contains available_formats o.format)

-- The choices of New: the level and the encoder.
pub data Level : Type 0 where
  info_level debug_level : Level

pub data Encoder : Type 0 where
  json_encoder console_encoder : Encoder

unfoldable pub new : Bool → Format → Level × Encoder
unfolding text_eq
new debug format = (
  if debug then debug_level else info_level,
  if text_eq format format_json then json_encoder else console_encoder,
)

unfoldable pub new_from_options : Options → Level × Encoder
unfolding new
new_from_options o = new o.debug o.format

-- NewDefault
unfoldable pub new_default : Level × Encoder
unfolding new
new_default = new false format_json
