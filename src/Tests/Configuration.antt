-- ===== src/Tests/Configuration.antt =====
-- Containers and their files as src/runtime/docker/configuration.rs sets them up.
use mathlib.Core.Path.{subst}
use agapornis_agent_rust.Base.Str
use agapornis_agent_rust.Base.NatSet
use agapornis_agent_rust.Base.{flatten}
use agapornis_agent_rust.Runtime.Configuration.{
  xdg_value, other_entries, runtime_environment, runtime_environment_value,
  repair_legacy_runtime_command, HostConfig, ensure_runtime_tmpfs, runtime_tmpfs_ready,
  thread_range, select_threads, select_range, select_segments, pinned_cpu_set, startup_target,
  first_target, trim_dot_slash,
}
use agapornis_agent_rust.Runtime.Configuration.Threads.{
  thread_ranges, IsPinning, pinned_cpu_set-IsPinning,
}
use agapornis_agent_rust.Runtime.Configuration.Environment.{
  entry_for, Without, Names, Chosen, runtime_environment-ready,
}
use agapornis_agent_rust.Runtime.Configuration.Repair.{
  old_command, new_command, repair_legacy_runtime_command-once,
}
use agapornis_agent_rust.Runtime.Configuration.Values.{
  Value, text, number, Fields, closed, field, scalar_text, replacement_for_current,
}
use agapornis_agent_rust.Runtime.Configuration.Lines.{
  properties_fields, properties_key, span_until, set_property, edit_lines, ini_field, edit_section,
  set_entry, insert_entry, insert_before, insert_in_section,
}
use agapornis_agent_rust.Runtime.Configuration.Properties.{keep, carries, Ignores}
use agapornis_agent_rust.Runtime.Configuration.Wanted.{
  AllSet, IsPlain, IgnoresAll, properties_fields-sets,
}
use agapornis_agent_rust.Base.{
  ℕ, ◌≡◌, refl, sym, ◌⊎◌, inl, inr, Bool, true, false, Option, none, some, List, [], ◌∷◌, ◌++◌,
  arith, Bool-cases, Text, same, same_iff, codes,
}

four_threads : pinned_cpu_set 8 (codes "0-2, 5") ≡ some (some (codes "0-2,5"))
unfolding pinned_cpu_set select_segments select_range select_threads thread_range NatSet.insert
    NatSet.contains Str.split_whitespace Str.split_where Str.without_empty Str.is_whitespace
    Str.split Str.split_once Str.parse_unsigned Str.parse_digits Str.is_empty
four_threads = refl

twice : pinned_cpu_set 8 (codes "0-2,2") ≡ none
unfolding pinned_cpu_set select_segments select_range select_threads thread_range NatSet.insert
    NatSet.contains Str.split_whitespace Str.split_where Str.without_empty Str.is_whitespace
    Str.split Str.split_once Str.parse_unsigned Str.parse_digits Str.is_empty
twice = refl

pinned_cpu_set-IsPinning_example :
    (codes "0-2,5" ≡ flatten (Str.split_whitespace (codes "0-2, 5")))
    × (ranges : List (ℕ × ℕ)) × (thread_ranges (Str.split b',' (codes "0-2,5")) ≡ some ranges)
    × IsPinning 8 ranges
pinned_cpu_set-IsPinning_example = pinned_cpu_set-IsPinning 8 (codes "0-2, 5") four_threads

abbrev asked : List Text
asked = codes "A=1" ∷ (codes "XDG_RUNTIME_DIR=/run/x" ∷ (codes "XDG_RUNTIME_DIR= " ∷ []))

managed :
    runtime_environment asked ≡ codes "A=1" ∷ (codes "XDG_RUNTIME_DIR=/tmp/agapornis-runtime" ∷ [])
unfolding runtime_environment other_entries runtime_environment_value xdg_value Str.split_once same
    Str.trim Str.trim_start_matches Str.trim_end_matches Str.is_whitespace Str.is_empty
managed = refl

runtime_environment-ready_example :
    let environment = runtime_environment asked in
    let host_config : HostConfig = record { tmpfs = none } in
    ((kept : List Text) × (last_asked : Option Text) × (dir : Text) × Without asked kept
      × Names asked last_asked
      × Chosen last_asked dir
      × (environment ≡ kept ++ entry_for dir ∷ [])
      × (runtime_environment_value environment ≡ some dir))
    × (runtime_tmpfs_ready (some (ensure_runtime_tmpfs host_config environment)) environment ≡ true)
runtime_environment-ready_example = runtime_environment-ready asked (record { tmpfs = none })

abbrev start_java : Option (List Text)
start_java = some (old_command (codes "java -jar a.jar"))

repair_legacy_runtime_command-once_example :
    let (after, changed) = repair_legacy_runtime_command (codes "run") start_java in
    (repair_legacy_runtime_command (codes "run") after ≡ (after, false))
    × (((changed ≡ false)
          × (after ≡ start_java)
          × ((startup : Text)
              → start_java ≡ some (old_command startup)
              → Str.is_empty (Str.trim startup) ≡ true))
        ⊎ ((startup : Text) × (changed ≡ true)
            × (start_java ≡ some (old_command startup))
            × (Str.is_empty (Str.trim startup) ≡ false)
            × (after ≡ some (new_command (codes "run") startup))))
repair_legacy_runtime_command-once_example =
    repair_legacy_runtime_command-once (codes "run") start_java

found_jar : startup_target (codes "java -jar './a.jar'") ≡ some (codes "a.jar")
unfolding startup_target first_target trim_dot_slash Str.split_whitespace Str.split_where
    Str.without_empty Str.is_whitespace Str.trim_matches Str.trim_start_matches Str.trim_end_matches
    Str.ends_with Str.starts_with
found_jar = refl

abbrev print : Value → Text
print value = codes "{}"

abbrev wanted_port : Fields
wanted_port =
    field (codes "port") (number (codes "25565"))
      (field (codes "ip") (text (codes "0.0.0.0")) closed)

abbrev old_lines : List Text
old_lines = codes "# kept" ∷ (codes "port : 1" ∷ (codes "motd=hi" ∷ []))

edited_port :
    properties_fields print wanted_port old_lines
    ≡ codes "# kept" ∷ (codes "port=25565" ∷ (codes "motd=hi" ∷ (codes "ip=0.0.0.0" ∷ [])))
unfolding properties_fields edit_lines set_property properties_key span_until scalar_text
    replacement_for_current Str.trim Str.trim_start Str.trim_start_matches Str.trim_end_matches
    Str.is_whitespace Str.is_empty Str.starts_with same
edited_port = refl

wanted_port-IsPlain : IsPlain wanted_port
unfolding Str.is_whitespace Str.is_empty Str.starts_with same
wanted_port-IsPlain = (
  (refl, (refl, (refl, (refl, (refl, tt))))),
  refl,
  refl,
  ((refl, (refl, (refl, tt))), refl, refl, tt),
)

abbrev is_greeting : Text → Bool
is_greeting = same (codes "motd=hi")

greeting_only : (key : Text) → carries key (codes "motd=hi") ≡ false → Ignores is_greeting key
greeting_only key other line c = elim (Bool-cases (is_greeting line)) [
  | inl e ↦
      let f =
        subst (λ (l : Text). carries key l ≡ true) (sym ((same_iff (codes "motd=hi") line).0 e))
          c in
      absurd (ground arith)
  | inr e ↦ e
]

others : IgnoresAll is_greeting wanted_port
unfolding properties_key span_until Str.trim_start Str.trim_start_matches Str.is_whitespace
    Str.is_empty Str.starts_with same
others = (greeting_only (codes "port") refl, (greeting_only (codes "ip") refl, tt))

properties_fields-sets_example :
    AllSet print wanted_port (properties_fields print wanted_port old_lines)
    × (keep is_greeting (properties_fields print wanted_port old_lines)
        ≡ keep is_greeting old_lines)
properties_fields-sets_example =
    properties_fields-sets print wanted_port old_lines is_greeting wanted_port-IsPlain others

new_entry :
    ini_field print
      (codes "a.k")
      (text (codes "2"))
      (codes "[a]" ∷ (codes "x=1" ∷ (codes "[b]" ∷ [])))
    ≡ codes "[a]" ∷ (codes "x=1" ∷ (codes "k=2" ∷ (codes "[b]" ∷ [])))
unfolding ini_field edit_section set_entry insert_entry insert_before insert_in_section scalar_text
    replacement_for_current Str.split_once Str.trim Str.trim_start_matches Str.trim_end_matches
    Str.is_whitespace Str.is_empty Str.starts_with Str.ends_with same
new_entry = refl
