-- ===== src/Cmd/Options.antt =====
-- cmd/init-agent/options.go. Validate and Complete hand a list of errors to
-- utilerrors.NewAggregate, which makes a nil error of the empty list: the list is the result here.
use init_agent.Base.{
  ℕ, map, ◌≡◌, refl, All, Bool, true, false, ◌⊎◌, inl, inr, Option, none, some, List, [], ◌∷◌, ◌++◌,
  Text, codes, if◌then◌else◌, Bool-cases,
}
use init_agent.Go.Strings.{is_empty}
use init_agent.Remote.{Fetched, found, failed}
use init_agent.Go.Flags.{Flag, bool_var, string_var, part}
use init_agent.Log
use init_agent.Log.{validate as validate_log}

pub data OptionError (E : Type 0) : Type 0 where
  invalid_log_format config_workspace_required : OptionError E
  invalid_init_target_selector : Text → E → OptionError E

-- Whether an error is that of the log format.
abbrev pub is_log_error : {E : Type 0} → OptionError E → Bool
is_log_error invalid_log_format = true
is_log_error config_workspace_required = false
is_log_error (invalid_init_target_selector s e) = false

-- `Sel` stands for labels.Selector; a nil selector is `none`.
pub record Options (Sel : Type 0) : Type 0 where
  pub config_workspace : Text
  pub enable_leader_election : Bool
  pub init_target_selector_string : Text
  pub init_target_selector : Option Sel
  pub log_options : Log.Options
  pub metrics_addr : Text
  pub health_addr : Text

-- `everything` is labels.Everything().
unfoldable pub new_options : {Sel : Type 0} → Sel → Options Sel
new_options everything = record {
  config_workspace = [];
  enable_leader_election = false;
  init_target_selector_string = [];
  init_target_selector = some everything;
  log_options = Log.new_default_options;
  metrics_addr = codes "127.0.0.1:8085";
  health_addr = [];
}

of_log_options : {Sel : Type 0} → Flag Log.Options → Flag (Options Sel)
of_log_options flag = record {
  name = flag.name;
  variable = part (λ o. o.log_options) (λ l o. record o { log_options = l }) flag.variable;
  usage = flag.usage;
}

-- AddFlags: the flags that are registered, in order, those of the log options first.
unfoldable pub add_flags : {Sel : Type 0} → (ℕ → ℕ) → Options Sel → List (Flag (Options Sel))
unfolding of_log_options
add_flags unicode o =
    map of_log_options (Log.add_p_flags unicode o.log_options)
    ++ (record {
      name = codes "config-workspace";
      variable = string_var o.config_workspace (λ s o. record o { config_workspace = s });
      usage = codes "kcp workspace or cluster where the InitTargets live that should be processed";
    }
        ∷ record {
          name = codes "init-target-selector";
          variable =
              string_var o.init_target_selector_string
                (λ s o. record o { init_target_selector_string = s });
          usage =
              codes "restrict to only process InitTargets matching this label selector (optional)";
        }
        ∷ record {
          name = codes "enable-leader-election";
          variable =
              bool_var o.enable_leader_election (λ b o. record o { enable_leader_election = b });
          usage = codes "whether to perform leader election";
        }
        ∷ record {
          name = codes "metrics-address";
          variable = string_var o.metrics_addr (λ s o. record o { metrics_addr = s });
          usage = codes "host and port to serve Prometheus metrics via /metrics (HTTP)";
        }
        ∷ record {
          name = codes "health-address";
          variable = string_var o.health_addr (λ s o. record o { health_addr = s });
          usage = codes "host and port to serve probes via /readyz and /healthz (HTTP)";
        }
        ∷ [])

-- `parse` is labels.Parse.
module _ {E Sel : Type 0} (parse : Text → Fetched E Sel) where
  selector_errors : Text → Fetched E Sel → List (OptionError E)
  selector_errors s (found sel) = []
  selector_errors s (failed e) = invalid_init_target_selector s e ∷ []

  unfoldable pub validate : Options Sel → List (OptionError E)
  unfolding selector_errors
  validate o =
      (if validate_log o.log_options then invalid_log_format ∷ [] else [])
      ++ ((if is_empty o.config_workspace then config_workspace_required ∷ [] else [])
          ++ (let s = o.init_target_selector_string in
              if is_empty s then [] else selector_errors s (parse s)))

  -- The assignment `o.InitTargetSelector = selector` is made on an error too.
  with_selector : Options Sel → Text → Fetched E Sel → Options Sel × List (OptionError E)
  with_selector o s (found sel) = (record o { init_target_selector = some sel }, [])
  with_selector o s (failed e) =
      (record o { init_target_selector = none }, invalid_init_target_selector s e ∷ [])

  unfoldable pub complete : Options Sel → Options Sel × List (OptionError E)
  unfolding with_selector
  complete o =
      let s = o.init_target_selector_string in
      if is_empty s then (o, []) else with_selector o s (parse s)

  -- Options without an error: a known log format, a workspace, and no selector or one that parses.
  pub record IsValid (o : Options Sel) : Type 0 where
    pub format_known : validate_log o.log_options ≡ false
    pub workspace_given : is_empty o.config_workspace ≡ false
    pub selector_parses :
        (is_empty o.init_target_selector_string ≡ true)
        ⊎ ((sel : Sel) × (parse o.init_target_selector_string ≡ found sel))

  split-nil :
      {A : Type 0} (b : Bool) (x : A) (r : List A)
      → (if b then x ∷ [] else []) ++ r ≡ []
      → (b ≡ false) × (r ≡ [])
  split-nil true x r h = cc
  split-nil false x r h = (refl, h)

  selector-nil :
      (s : Text) (f : Fetched E Sel) → selector_errors s f ≡ [] → (sel : Sel) × (f ≡ found sel)
  unfolding selector_errors
  selector-nil s (found sel) h = (sel, refl)
  selector-nil s (failed e) h = cc

  -- Options that Validate accepts name a known log format and a workspace, and Complete accepts
  -- them too: it sets the parsed selector if the text of one is given, and else changes nothing.
  pub validate-complete :
      (o : Options Sel)
      → validate o ≡ []
      → IsValid o
        × ((is_empty o.init_target_selector_string ≡ true) × (complete o ≡ (o, []))
            ⊎ ((sel : Sel) × (parse o.init_target_selector_string ≡ found sel)
                × (complete o ≡ (record o { init_target_selector = some sel }, []))))
  unfolding validate complete
  validate-complete o h =
      let (format, h₁) = split-nil (validate_log o.log_options) invalid_log_format _ h in
      let (workspace, h₂) =
        split-nil (is_empty o.config_workspace) config_workspace_required _ h₁ in
      elim (Bool-cases (is_empty o.init_target_selector_string)) [
        | inl absent ↦ (
          record {
            format_known = format;
            workspace_given = workspace;
            selector_parses = inl absent;
          },
          inl (absent, rw absent),
        )
        | inr given ↦
            let (sel, parses) =
              selector-nil o.init_target_selector_string (parse o.init_target_selector_string)
                (rw given at h₂) in
            (
              record {
                format_known = format;
                workspace_given = workspace;
                selector_parses = inr (sel, parses);
              },
              inr (sel, parses, rw (given, parses) (unfold with_selector in refl)),
            )
      ]

  other_errors :
      (missing absent : Bool) (s : Text) (f : Fetched E Sel)
      → All
          (λ e. is_log_error e ≡ false)
          ((if missing then config_workspace_required ∷ [] else [])
            ++ (if absent then [] else selector_errors s f))
  unfolding selector_errors
  other_errors true true s f = (refl, tt)
  other_errors true false s (found sel) = (refl, tt)
  other_errors true false s (failed e) = (refl, (refl, tt))
  other_errors false true s f = tt
  other_errors false false s (found sel) = tt
  other_errors false false s (failed e) = (refl, tt)

  -- With a known log format the errors of Validate are others.
  pub validate-others :
      (o : Options Sel)
      → validate_log o.log_options ≡ false
      → All (λ e. is_log_error e ≡ false) (validate o)
  unfolding validate
  validate-others o h =
      let s = o.init_target_selector_string in
      rw h (other_errors (is_empty o.config_workspace) (is_empty s) s (parse s))
