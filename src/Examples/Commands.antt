-- ===== src/Examples/Commands.antt =====
-- The options of the command and of its logger.
use init_agent.Base.{ℕ, ◌≡◌, refl, true, Option, some, [], Text, codes, text_eq, none, List}
use init_agent.Remote.{Fetched, found}
use init_agent.Log
use init_agent.Log.{Format, format_console, info_level, new_default_options}
use init_agent.Cmd.Options.{Options, new_options, validate}
use init_agent.Kcp.Rest.{has_slash, cluster_config}
use init_agent.Cmd.Main.{Libraries, run}
use init_agent.Cmd.Main.Laws.{run-cluster_config}
use init_agent.Go.Flags.{Flag}
use init_agent.Examples.Doubles.{cfg}

abbrev identity : ℕ → ℕ
identity c = c

abbrev parse : Text → Fetched ℕ Text
parse s = found s

abbrev options : Options Text
options = record (new_options []) {
  config_workspace = codes "root:config";
  init_target_selector_string = codes "env=prod";
}

options_valid : validate parse options ≡ []
unfolding validate Log.validate text_eq new_options
options_valid = refl

abbrev libraries : Libraries ℕ Text ℕ ℕ
libraries = record {
  add_core = none;
  add_initialization = none;
  new_manager = λ config options. found 7;
  complete_builder = λ mgr controller. none;
  start_manager = λ mgr. none;
  matches = λ selector labels. true;
  parse = parse;
}

run-cluster_config_example :
    run libraries (cluster_config cfg (codes "root")) options []
    ≡ run libraries (cluster_config cfg (codes "org")) options []
run-cluster_config_example =
    run-cluster_config libraries options cfg (codes "root") (codes "org") []
      (unfold has_slash in record { filled = refl; whole = refl })
      (unfold has_slash in record { filled = refl; whole = refl })

-- A command line that names the workspace.
abbrev named : List (Flag (Options Text)) → Options Text → Option (Options Text)
named flags o = some (record o { config_workspace = codes "root:config" })
