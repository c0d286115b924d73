-- ===== src/Tests/Inspection.antt =====
-- Checks of a start, and what is reported of a container: src/runtime/docker/inspection.rs.
use agapornis_agent_rust.Base.Str
use agapornis_agent_rust.Base.Dict
use agapornis_agent_rust.Base.IdSet
use agapornis_agent_rust.Runtime.Inspection.{StartupState, memory_metrics, saturating_i64}
use agapornis_agent_rust.Runtime.Inspection.Startup.{
  Look, look_all, AreChained, look_all-AreChained,
}
use agapornis_agent_rust.Base.{
  ℕ, ◌+◌, ◌*◌, ◌≡◌, refl, false, some, List, [], ◌∷◌, Text, same, codes,
}

abbrev alpha : Text
alpha = codes "alpha"

abbrev unchecked : StartupState
unchecked = record { startup_ready = []; startup_checks = [] }

abbrev at_second : ℕ → Look
at_second t = record {
  now = t * 1000000000;
  noted = t * 1000000000 + 7;
  timestamp = 100 + t;
  started = 90;
}

abbrev four_looks : List Look
four_looks = at_second 0 ∷ (at_second 3 ∷ (at_second 6 ∷ (at_second 12 ∷ [])))

not_ready : IdSet.contains alpha unchecked.startup_ready ≡ false
unfolding IdSet.contains
not_ready = refl

marked : Str.is_empty (codes "Done") ≡ false
unfolding Str.is_empty
marked = refl

look_all-AreChained_example :
    AreChained
      (Dict.get alpha unchecked.startup_checks)
      (look_all (codes "Done") alpha four_looks unchecked)
look_all-AreChained_example =
    look_all-AreChained (codes "Done") alpha four_looks unchecked marked not_ready

used_memory :
    memory_metrics (
      some (record {
        usage = some 1000;
        limit = some 2000;
        stats = some ((codes "inactive_file", 100) ∷ []);
      }))
    ≡ (900, 2000)
unfolding memory_metrics saturating_i64 Dict.get same
used_memory = refl
