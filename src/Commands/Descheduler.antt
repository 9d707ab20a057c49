-- ===== src/Commands/Descheduler.antt =====
-- cmd/descheduler/descheduler.go with app/server.go and app/options/options.go: the descheduler's
-- command line. Its parser is cobra's; a flag that it accepts is set on the server.
pub mod Flags
use super_scheduling.Prelude.{
  ℕ, Bool, true, false, Option, none, some, List, [], ◌∷◌, ◌++◌, String, Map, ℤ, Error, Result, ok,
  err, Run, returns, panics, ◌>>=◌, ◌==◌, string_eq, if◌then◌else◌,
}
use super_scheduling.Descheduler.Rounds.{DeschedulerServer}

-- The server of options.go: the component configuration with the format of the logging, and the
-- format in the log options.
pub record Server : Type 0 where
  pub configuration : DeschedulerServer
  pub logging_format : String
  pub log_format : String

pub data FlagValue : Type 0 where
  text : String → FlagValue
  switch : Bool → FlagValue
  number : ℤ → FlagValue

-- The flags with their defaults, which are the values of the server.
unfoldable pub add_flags : Server → Map String FlagValue
add_flags s =
    ("logging-format", text s.logging_format)
    ∷ ("descheduling-interval", number s.configuration.descheduling_interval)
    ∷ ("kubeconfig", text s.configuration.kubeconfig_file)
    ∷ ("policy-config-file", text s.configuration.policy_config_file)
    ∷ ("dry-run", switch s.configuration.dry_run)
    ∷ ("node-selector", text s.configuration.node_selector)
    ∷ ("max-pods-to-evict-per-node", number s.configuration.max_no_of_pods_to_evict_per_node)
    ∷ ("evict-local-storage-pods", switch s.configuration.evict_local_storage_pods)
    ∷ []

-- What the server is bound to for a flag: the variable of that name and type.
unfoldable pub set_text : String → String → Server → Server
set_text name v s =
    if name == "logging-format"
    then record s { logging_format = v }
    else if name == "kubeconfig"
    then record s { configuration = record s.configuration { kubeconfig_file = v } }
    else if name == "policy-config-file"
    then record s { configuration = record s.configuration { policy_config_file = v } }
    else if name == "node-selector"
    then record s { configuration = record s.configuration { node_selector = v } }
    else s

unfoldable pub set_switch : String → Bool → Server → Server
set_switch name v s =
    if name == "dry-run"
    then record s { configuration = record s.configuration { dry_run = v } }
    else if name == "evict-local-storage-pods"
    then record s { configuration = record s.configuration { evict_local_storage_pods = v } }
    else s

unfoldable pub set_number : String → ℤ → Server → Server
set_number name v s =
    if name == "descheduling-interval"
    then record s { configuration = record s.configuration { descheduling_interval = v } }
    else if name == "max-pods-to-evict-per-node"
    then record s {
      configuration = record s.configuration { max_no_of_pods_to_evict_per_node = v };
    }
    else s

unfoldable pub set_flag : String × FlagValue → Server → Server
unfolding set_text set_switch set_number
set_flag (name, text v) s = set_text name v s
set_flag (name, switch v) s = set_switch name v s
set_flag (name, number v) s = set_number name v s

unfoldable pub set_flags : List (String × FlagValue) → Server → Server
unfolding set_flag
set_flags [] s = s
set_flags (flag ∷ flags) s = set_flags flags (set_flag flag s)

-- What the command calls of libraries: the default configuration of the descheduler's scheme, the
-- log options' default format and their validation with NewAggregate, and cobra's parser, for the
-- flags with their defaults and the arguments. `run` is Run of pkg/descheduler.
pub record Libraries : Type 0 where
  pub default_component_config : Result (DeschedulerServer × String)
  pub new_log_format : String
  pub validate_logs : String → List Error
  pub new_aggregate : List Error → Option Error
  pub parse : Map String FlagValue → List String → Result (List (String × FlagValue))
  pub run : DeschedulerServer → Option Error

module _ (libraries : Libraries) where
  unfoldable pub new_descheduler_server : Result Server
  new_descheduler_server = elim libraries.default_component_config [
    | err e ↦ err e
    | ok (configuration, logging_format) ↦ ok (record {
      configuration = configuration;
      logging_format = logging_format;
      log_format = libraries.new_log_format;
    })
  ]

  unfoldable pub validate : Server → Option Error
  validate s = libraries.new_aggregate ([] ++ libraries.validate_logs s.log_format)

  -- An error of the server is logged and its flags are added all the same, to a nil server.
  unfoldable pub new_descheduler_command : Run Server
  unfolding new_descheduler_server
  new_descheduler_command = elim new_descheduler_server [ err e ↦ panics | ok s ↦ returns s ]

  abbrev pub logged : Option Error → List Error
  logged none = []
  logged (some e) = e ∷ []

  -- Run of the command: what it logs. An error of the validation does not stop it.
  unfoldable pub run_command : Server → List Error
  unfolding validate
  run_command s =
      let applied = record s { log_format = s.logging_format } in
      logged (validate applied) ++ logged (libraries.run applied.configuration)

  -- The exit code of the process, and the errors that it logs.
  unfoldable pub main : List String → Run (ℕ × List Error)
  unfolding new_descheduler_command run_command add_flags set_flags
  main args = new_descheduler_command >>= λ s. elim (libraries.parse (add_flags s) args) [
    | err e ↦ returns (1, e ∷ [])
    | ok flags ↦ returns (0, run_command (set_flags flags s))
  ]
