-- ===== src/Runtime/Update.antt =====
-- Updates of the agent's own binary: src/runtime/update.rs. The binary that is pending is named by a
-- marker; activating it keeps the old binary until the new one has run well.
pub mod Calls
pub mod Places
pub mod Rules
pub mod Guarded
pub mod Well
pub mod Staging
pub mod Pending
pub mod Activation
pub mod Restoring
pub mod Return
pub mod Stuck
pub mod Receiving
pub mod Verified
use agapornis_agent_rust.Base.Str
use agapornis_agent_rust.Runtime.Update.Calls.{
  Place, exe, staged, elsewhere, Files, Fate, Outcome, File, find, give, give_up, next, ◌>>=◌, ◌>>◌,
  write, copy, rename, remove_file, set_permissions, read, canonicalize, create_new, append, pass,
  attempt,
}
use agapornis_agent_rust.Base.{
  ℕ, zero, suc, ◌+◌, ◌-◌, ◌*◌, ◌/◌, ◌%◌, ◌^◌, ◌≤◌, ◌<◌, min, max, ◌≡◌, refl, sym, ap, ◌∙◌, ◌≢◌, ◌↔◌,
  ◌⊎◌, inl, inr, Bool, true, false, not, ◌&&◌, ◌||◌, Option, none, some, List, [], ◌∷◌, ◌++◌, map,
  arith, ltb, leb, ◌==◌, if◌then◌else◌, ==_iff, ltb-eq-false, Bool-cases, Option-cases, is_some,
  length, length-append, take, drop, take-append-drop, All, All-append, IsSuffix, Text, same,
  same_iff, same_refl, codes, u64_max, sat_add, wrapping_add, sat_add_exact,
}

pub record ActivationState : Type 0 where
  pub previous : Text
  pub activated : Text
  pub activated_at : Text

pub data ActivationOutcome : Type 0 where
  nothing_pending activated_now rolled_back : ActivationOutcome

-- `PathBuf` and `serde_json`: which file a path names, its text, and the form of the state.
pub record Forms : Type 0 where
  pub place_of : Text → Place
  pub display : Place → Text
  pub to_json : ActivationState → Text
  pub from_json : Text → Option ActivationState

abbrev pub marker : Place
marker = staged (codes "pending-artifact")

abbrev pub previous_agent : Place
previous_agent = staged (codes "previous-agent")

abbrev pub previous_temp : Place
previous_temp = staged (codes "previous-agent.tmp")

abbrev pub activation_state : Place
activation_state = staged (codes "activation-state.json")

-- The name has the time in it, to the second.
abbrev pub failed_agent : Text → Place
failed_agent stamp = staged (codes "failed-agent-" ++ stamp)

abbrev pub exists : Place → Files → Bool
exists p f = is_some (find p f)

-- Only a file that stands in the staging directory itself is accepted.
abbrev pub confined : Place → File (Option Text)
confined (staged name) = give (some name)
confined exe = give_up
confined (elsewhere path) = give_up

unfoldable pub replace_binary : Place → Place → File Bool
replace_binary source target = set_permissions source >> rename source target

-- The old binary is put back; if that fails the failed one is, if that can be done.
unfoldable pub restore : Place → Place → File ActivationOutcome
restore previous failed f fates =
    let moved = rename previous exe f fates in
    elim moved.result [
      | none ↦ (attempt (rename failed exe) >> give_up) moved.files moved.fates
      | some done ↦ (remove_file activation_state >> give rolled_back) moved.files moved.fates
    ]

module _ (forms : Forms) where
  -- The marker, once it is read.
  unfoldable pub resolve_pending : Text → File (Option Text)
  resolve_pending value =
      if Str.is_empty value
      then give none
      else (pass >> (canonicalize (forms.place_of value) >>= confined))

  unfoldable pub pending_update_at : File (Option Text)
  pending_update_at f fates =
      if exists marker f
      then (read marker >>= λ raw. resolve_pending (Str.trim raw)) f fates
      else give none f fates

  -- The state that is written before the binary is replaced.
  abbrev pub state_at : Text → ActivationState
  state_at now = record {
    previous = forms.display previous_agent;
    activated = forms.display exe;
    activated_at = now;
  }

  abbrev pub state_before : Text → Text
  state_before now = forms.to_json (state_at now)

  -- `activate_at`, once the pending file is known.
  unfoldable pub install : Text → Text → File ActivationOutcome
  install now name =
      copy exe previous_temp
      >> (rename previous_temp previous_agent
          >> (write activation_state (state_before now)
              >> (replace_binary (staged name) exe >> (remove_file marker >> give activated_now))))

  abbrev pub install_pending : Text → Option Text → File ActivationOutcome
  install_pending now none = give_up
  install_pending now (some name) = install now name

  abbrev pub roll_back_to : Text → Option ActivationState → File ActivationOutcome
  roll_back_to stamp none f fates = give_up f fates
  roll_back_to stamp (some state) f fates =
      let previous = forms.place_of state.previous in
      if exists previous f
      then (rename exe (failed_agent stamp) >> restore previous (failed_agent stamp)) f fates
      else give_up f fates

  unfoldable pub rollback_at : Text → File ActivationOutcome
  rollback_at stamp f fates =
      if exists activation_state f
      then (read activation_state >>= λ raw. roll_back_to stamp (forms.from_json raw)) f fates
      else give nothing_pending f fates

  unfoldable pub activate_at : Text → Text → File ActivationOutcome
  activate_at now stamp f fates =
      if exists marker f
      then (pending_update_at >>= install_pending now) f fates
      else if exists activation_state f
      then rollback_at stamp f fates
      else give nothing_pending f fates

  abbrev pub forget_previous : Option ActivationState → File Bool
  forget_previous none = give_up
  forget_previous (some state) =
      attempt (remove_file (forms.place_of state.previous)) >> remove_file activation_state

  unfoldable pub commit_healthy_at : File Bool
  commit_healthy_at f fates =
      if exists activation_state f
      then (read activation_state >>= λ raw. forget_previous (forms.from_json raw)) f fates
      else give true f fates
