-- ===== src/Runtime/Disk/Newest.antt =====
-- What the cache holds of a server is from its newest calculation.
use mathlib.Core.Path.{subst}
use agapornis_agent_rust.Base.Dict
use agapornis_agent_rust.Base.{ℤ}
use agapornis_agent_rust.Security.Protection.{elapsed}
use agapornis_agent_rust.Runtime.Disk.{
  CacheState, ready, calculating, DiskCache, DiskCalculation, cached, calculate, wait_for,
  is_calculating, start_calculation, begin_disk_calculation, store_usage, abandon, forget_usage,
}
use agapornis_agent_rust.Base.{
  ℕ, ◌<◌, ◌≡◌, refl, ap, ◌⊎◌, inl, inr, Bool, true, false, not, ◌&&◌, Option, none, some, List, [],
  ◌∷◌, arith, leb, if◌then◌else◌, ==_iff, Bool-cases, Text, same, same_iff,
}

-- What the tasks do, in the order in which they get the lock.
pub data Action : Type 0 where
  begins : ℕ → Text → Bool → ℕ → Action
  stores : ℕ → Text → ℕ → ℤ → ℤ → Action
  abandons : Text → ℕ → Action
  forgets : Text → Action

-- What has happened, the last first.
pub data Event : Type 0 where
  begun : Text → ℕ → Event
  measured : Text → ℕ → ℤ → ℤ → Event

pub record Seen : Type 0 where
  pub disk_cache : DiskCache
  pub log : List Event

abbrev pub noted : Text → DiskCalculation → List Event → List Event
noted id (calculate notify) log = begun id notify ∷ log
noted id (cached usage limit) log = log
noted id (wait_for notify) log = log

abbrev pub act_once : Action → Seen → Seen
act_once (begins now id force max_age) s =
    let (after, result) = begin_disk_calculation now id force max_age s.disk_cache in
    record { disk_cache = after; log = noted id result s.log }
act_once (stores now id notify usage limit) s = record {
  disk_cache = store_usage now id notify usage limit s.disk_cache;
  log = measured id notify usage limit ∷ s.log;
}
act_once (abandons id notify) s = record s { disk_cache = abandon id notify s.disk_cache }
act_once (forgets id) s = record s { disk_cache = forget_usage id s.disk_cache }

unfoldable pub act_all : List Action → Seen → Seen
act_all [] s = s
act_all (a ∷ actions) s = act_all actions (act_once a s)

-- The calculation of the server that began last.
abbrev pub newest : Text → List Event → Option ℕ
newest id [] = none
newest id (begun other notify ∷ log) = if same other id then some notify else newest id log
newest id (measured other notify usage limit ∷ log) = newest id log

-- The calculation measured this.
abbrev pub HasMeasured : Text → ℕ → ℤ → ℤ → List Event → Type 0
HasMeasured id notify usage limit [] = ⊥
HasMeasured id notify usage limit (e ∷ log) =
    (e ≡ measured id notify usage limit) ⊎ HasMeasured id notify usage limit log

-- Each calculation has a number of its own.
abbrev pub AreNumbered : ℕ → List Event → Type 0
AreNumbered next [] = Unit
AreNumbered next (begun id notify ∷ log) = (notify < next) × AreNumbered notify log
AreNumbered next (measured id notify usage limit ∷ log) = AreNumbered next log

-- What is held of a server belongs to its newest calculation.
abbrev pub IsOfNewest : Text → List Event → Option CacheState → Type 0
IsOfNewest id log none = Unit
IsOfNewest id log (some (calculating notify)) = newest id log ≡ some notify
IsOfNewest id log (some (ready when usage limit)) =
    (notify : ℕ) × (newest id log ≡ some notify) × HasMeasured id notify usage limit log

pub record IsCurrent (s : Seen) : Type 0 where
  pub numbered : AreNumbered s.disk_cache.next_notify s.log
  pub held : (id : Text) → IsOfNewest id s.log (Dict.get id s.disk_cache.entries)

-- A calculation of another server changes nothing.
begun-IsOfNewest :
    (id j : Text) (notify : ℕ) (log : List Event) (v : Option CacheState)
    → same id j ≡ false
    → IsOfNewest j log v
    → IsOfNewest j (begun id notify ∷ log) v
begun-IsOfNewest id j notify log none h w = tt
begun-IsOfNewest id j notify log (some (calculating n)) h w = rw h w
begun-IsOfNewest id j notify log (some (ready when usage limit)) h w = (w.0, rw h w.1, inr w.2)

measured-IsOfNewest :
    (id j : Text) (notify : ℕ) (usage limit : ℤ) (log : List Event) (v : Option CacheState)
    → IsOfNewest j log v
    → IsOfNewest j (measured id notify usage limit ∷ log) v
measured-IsOfNewest id j notify usage limit log none w = tt
measured-IsOfNewest id j notify usage limit log (some (calculating n)) w = w
measured-IsOfNewest id j notify usage limit log (some (ready when u l)) w = (w.0, w.1, inr w.2)

-- A round begins a calculation or changes nothing.
begin-cases :
    (now : ℕ) (id : Text) (force : Bool) (max_age : ℕ) (c : DiskCache) (v : Option CacheState)
    → Dict.get id c.entries ≡ v
    → (begin_disk_calculation now id force max_age c ≡ start_calculation id c)
      ⊎ ((r : DiskCalculation) × (begin_disk_calculation now id force max_age c ≡ (c, r))
          × ((log : List Event) → noted id r log ≡ log))
unfolding begin_disk_calculation
begin-cases now id force max_age c none h = inl (rw (h, begin_disk_calculation) refl)
begin-cases now id force max_age c (some (calculating notify)) h =
    inr (wait_for notify, rw (h, begin_disk_calculation) refl, λ log. refl)
begin-cases now id force max_age c (some (ready when usage limit)) h =
    elim (Bool-cases (not force && leb (elapsed now when) max_age)) [
      | inl e ↦ inr (cached usage limit, rw (h, begin_disk_calculation) (rw e refl), λ log. refl)
      | inr e ↦ inl (rw (h, begin_disk_calculation) (rw e refl))
    ]

calculating_of :
    (notify : ℕ) (v : Option CacheState)
    → is_calculating notify v ≡ true
    → v ≡ some (calculating notify)
calculating_of notify none h = absurd (ground arith)
calculating_of notify (some (ready when usage limit)) h = absurd (ground arith)
calculating_of notify (some (calculating current)) h =
    ap (λ (n : ℕ). some (calculating n)) ((==_iff current notify).0 h)

module _ (s : Seen) (w : IsCurrent s) where
  start-IsCurrent :
      (id : Text)
      → IsCurrent (record {
        disk_cache = (start_calculation id s.disk_cache).0;
        log = begun id s.disk_cache.next_notify ∷ s.log;
      })
  start-IsCurrent id = record {
    numbered = (omega arith, w.numbered);
    held = λ j. elim (Bool-cases (same id j)) [
      | inl e ↦ rw (Dict.get-insert, e) (rw e refl)
      | inr e ↦ rw (Dict.get-insert, e) (begun-IsOfNewest id j _ s.log _ e (w.held j))
    ];
  }

  begin-IsCurrent :
      (now : ℕ) (id : Text) (force : Bool) (max_age : ℕ)
      → IsCurrent (act_once (begins now id force max_age) s)
  unfolding begin_disk_calculation
  begin-IsCurrent now id force max_age =
      elim (begin-cases now id force max_age s.disk_cache (Dict.get id s.disk_cache.entries) refl) [
        | inl e ↦ rw e (start-IsCurrent id)
        | inr (r, e, n) ↦ rw (e, n s.log) w
      ]

  removal-held :
      (id : Text)
      → (j : Text) → IsOfNewest j s.log (Dict.get j (Dict.remove id s.disk_cache.entries))
  removal-held id j = elim (Bool-cases (same id j)) [
    | inl e ↦ rw (Dict.get-remove, e) tt
    | inr e ↦ rw (Dict.get-remove, e) (w.held j)
  ]

  abandon-IsCurrent : (id : Text) (notify : ℕ) → IsCurrent (act_once (abandons id notify) s)
  unfolding abandon
  abandon-IsCurrent id notify =
      elim (Bool-cases (is_calculating notify (Dict.get id s.disk_cache.entries))) [
        | inl e ↦ rw e (record { numbered = w.numbered; held = removal-held id })
        | inr e ↦ rw e (record { numbered = w.numbered; held = w.held })
      ]

  store-IsCurrent :
      (now : ℕ) (id : Text) (notify : ℕ) (usage limit : ℤ)
      → IsCurrent (act_once (stores now id notify usage limit) s)
  unfolding store_usage
  store-IsCurrent now id notify usage limit =
      let e = s.disk_cache.entries in
      let log = measured id notify usage limit ∷ s.log in
      elim (Bool-cases (is_calculating notify (Dict.get id e))) [
        | inl own ↦
            let flying =
              subst (IsOfNewest id s.log) (calculating_of notify (Dict.get id e) own) (w.held id) in
            rw own (record {
              numbered = w.numbered;
              held = λ j. elim (Bool-cases (same id j)) [
                | inl f ↦
                    rw (Dict.get-insert, f)
                      (subst (λ (k : Text). IsOfNewest k log (some (ready now usage limit)))
                        ((same_iff id j).0 f) (notify, flying, inl refl))
                | inr f ↦
                    rw (Dict.get-insert, f)
                      (measured-IsOfNewest id j notify usage limit s.log (Dict.get j e) (w.held j))
              ];
            })
        | inr stale ↦ rw stale (record {
          numbered = w.numbered;
          held = λ j. measured-IsOfNewest id j notify usage limit s.log (Dict.get j e) (w.held j);
        })
      ]

act_once-IsCurrent : (a : Action) (s : Seen) → IsCurrent s → IsCurrent (act_once a s)
unfolding forget_usage
act_once-IsCurrent (begins now id force max_age) s w = begin-IsCurrent s w now id force max_age
act_once-IsCurrent (stores now id notify usage limit) s w =
    store-IsCurrent s w now id notify usage limit
act_once-IsCurrent (abandons id notify) s w = abandon-IsCurrent s w id notify
act_once-IsCurrent (forgets id) s w = record { numbered = w.numbered; held = removal-held s w id }

-- Whatever the tasks do, in any order: each calculation has a number of its own, and what the cache
-- holds of a server belongs to the calculation of that server that began last. A pending entry is
-- that calculation's, and a value is one that it measured, so that a calculation that was given up
-- never overwrites a later one.
pub act_all-IsCurrent :
    (actions : List Action) (s : Seen) → IsCurrent s → IsCurrent (act_all actions s)
unfolding act_all
act_all-IsCurrent [] s w = w
act_all-IsCurrent (a ∷ actions) s w =
    act_all-IsCurrent actions (act_once a s) (act_once-IsCurrent a s w)
