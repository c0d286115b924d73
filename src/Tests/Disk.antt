-- ===== src/Tests/Disk.antt =====
-- Two calculations of one server, of which the first comes too late:
-- src/runtime/docker/inspection/disk.rs.
use agapornis_agent_rust.Base.Dict
use agapornis_agent_rust.Base.{pos}
use agapornis_agent_rust.Runtime.Disk.{ready, begin_disk_calculation, store_usage, abandon}
use agapornis_agent_rust.Runtime.Disk.Newest.{
  Action, begins, stores, abandons, Seen, act_all, IsCurrent, act_all-IsCurrent,
}
use agapornis_agent_rust.Base.{◌≡◌, refl, true, false, some, List, [], ◌∷◌, Text, same, codes}

abbrev alpha : Text
alpha = codes "alpha"

abbrev unseen : Seen
unseen = record { disk_cache = record { entries = []; next_notify = 0 }; log = [] }

abbrev late : List Action
late =
    begins 1 alpha false 75
    ∷ (abandons alpha 0
        ∷ (begins 2 alpha true 75
            ∷ (stores 3 alpha 0 (pos 10) (pos 100) ∷ (stores 4 alpha 1 (pos 20) (pos 100) ∷ []))))

kept_second :
    Dict.get alpha (act_all late unseen).disk_cache.entries ≡ some (ready 4 (pos 20) (pos 100))
unfolding act_all begin_disk_calculation store_usage abandon Dict.get Dict.insert Dict.remove same
kept_second = refl

unseen-IsCurrent : IsCurrent unseen
unfolding Dict.get
unseen-IsCurrent = record { numbered = tt; held = λ id. tt }

act_all-IsCurrent_example : IsCurrent (act_all late unseen)
act_all-IsCurrent_example = act_all-IsCurrent late unseen unseen-IsCurrent
