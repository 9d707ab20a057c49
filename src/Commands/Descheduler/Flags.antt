-- ===== src/Commands/Descheduler/Flags.antt =====
-- A flag changes the value that it is bound to and no other.
use super_scheduling.Prelude.{
  ◌≡◌, refl, ◌∙◌, ap, String, Bool, ℤ, List, [], ◌∷◌, Map, insert, string_eq,
}
use super_scheduling.Commands.Descheduler.{
  Server, FlagValue, text, switch, number, add_flags, set_text, set_switch, set_number, set_flag,
  set_flags,
}

-- The flags that the parser accepts, with a value of their type.
pub data IsFlag : String × FlagValue → Type 0 where
  logging_format : (v : String) → IsFlag ("logging-format", text v)
  descheduling_interval : (v : ℤ) → IsFlag ("descheduling-interval", number v)
  kubeconfig : (v : String) → IsFlag ("kubeconfig", text v)
  policy_config_file : (v : String) → IsFlag ("policy-config-file", text v)
  dry_run : (v : Bool) → IsFlag ("dry-run", switch v)
  node_selector : (v : String) → IsFlag ("node-selector", text v)
  max_pods_to_evict_per_node : (v : ℤ) → IsFlag ("max-pods-to-evict-per-node", number v)
  evict_local_storage_pods : (v : Bool) → IsFlag ("evict-local-storage-pods", switch v)

add_flags-set_flag :
    (name : String) (value : FlagValue) (s : Server)
    → IsFlag (name, value)
    → add_flags (set_flag (name, value) s) ≡ insert name value (add_flags s)
unfolding add_flags set_flag set_text set_switch set_number insert
add_flags-set_flag _ _ s (logging_format v) = refl
add_flags-set_flag _ _ s (descheduling_interval v) = refl
add_flags-set_flag _ _ s (kubeconfig v) = refl
add_flags-set_flag _ _ s (policy_config_file v) = refl
add_flags-set_flag _ _ s (dry_run v) = refl
add_flags-set_flag _ _ s (node_selector v) = refl
add_flags-set_flag _ _ s (max_pods_to_evict_per_node v) = refl
add_flags-set_flag _ _ s (evict_local_storage_pods v) = refl

unfoldable pub insert_all : List (String × FlagValue) → Map String FlagValue → Map String FlagValue
insert_all [] flags = flags
insert_all ((name, value) ∷ rest) flags = insert_all rest (insert name value flags)

unfoldable pub AreFlags : List (String × FlagValue) → Type 0
AreFlags [] = Unit
AreFlags ((name, value) ∷ rest) = IsFlag (name, value) × AreFlags rest

-- After any flags of the command line, the server has for each flag the last value that was given,
-- and the default where none was.
pub add_flags-set_flags :
    (flags : List (String × FlagValue)) (s : Server)
    → AreFlags flags
    → add_flags (set_flags flags s) ≡ insert_all flags (add_flags s)
unfolding set_flags insert_all AreFlags
add_flags-set_flags [] s known = refl
add_flags-set_flags ((name, value) ∷ flags) s known =
    add_flags-set_flags flags (set_flag (name, value) s) known.1
    ∙ ap (insert_all flags) (add_flags-set_flag name value s known.0)
