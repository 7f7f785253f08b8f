-- ===== src/Poller/Start.antt =====
-- internal/poller/poller.go: `Start`, and the three goroutines as they interleave with each other and
-- with the clients' calls of the broker.
--
-- A round is one step; Broker/Threads cuts its broadcast where other goroutines may come between.
-- A goroutine that has a tick and the end of the context before it takes either.
pub mod News
pub mod Steps
pub mod Listeners
mod Tests
use zfs_nas_dashboard.Prelude.{
  ℕ, zero, suc, ◌+◌, ◌-◌, ◌*◌, ◌/◌, ◌%◌, ◌^◌, ◌≤◌, ◌<◌, ◌≡◌, refl, sym, ap, subst, ◌∙◌, ◌≢◌, ◌↔◌,
  ◌⊎◌, inl, inr, Bool, true, false, not, ◌&&◌, ◌||◌, Option, none, some, List, [], ◌∷◌, ◌++◌, map,
  reverse, arith, dec_lt, ℕ_discrete, ltb, leb, ◌==◌, if◌then◌else◌, ==_iff, Bool-cases,
  Option-cases, length, get_elem?, get_elem?-lt, get_elem?-append_left, get_elem?-append_self,
  get_elem?-set_self, get_elem?-set_ne, length-append, set, take, drop, In, In-append, either, both,
  All, ℤ, pos, negsuc, ◌+ℤ◌, ◌*ℤ◌, ◌≤ℤ◌, ◌<ℤ◌, ltb_ℤ, leb_ℤ, eqb_ℤ, eqb_ℤ_iff, pos_part, neg_part,
  IsInt64, wrap64, sub_ℕ,
}
use zfs_nas_dashboard.Prelude.Result.{Result, ok, err}
use zfs_nas_dashboard.Go.Strings.{Text, codes}
use zfs_nas_dashboard.Broker
use zfs_nas_dashboard.Broker.{Broker, Outcome, panic, ◌>>=◌}
use zfs_nas_dashboard.Broker.Calls.{Call, broadcasts}
use zfs_nas_dashboard.Broker.Calls
use zfs_nas_dashboard.Config.{Config}
use zfs_nas_dashboard.Collector.Smart.{DiskInfo}
use zfs_nas_dashboard.Poller.{Database, Poller}
use zfs_nas_dashboard.Poller.Loops.{with_ticker, smart_round, files_round, zfs_round}

-- A goroutine before its ticker is made, in its loop, and after its return.
pub data Phase : Type 0 where
  starting : Phase
  looping : Phase
  stopped : Phase

pub record Phases : Type 0 where
  pub smart : Phase
  pub files : Phase
  pub zfs : Phase
  pub cancelled : Bool

-- A goroutine goes on, with what its collection gives, or sees the end of the context; the context
-- is cancelled; a client calls the broker.
pub data Event (F E : Type 0) : Type 0 where
  smart_goes : Result E (List DiskInfo) → Event F E
  files_goes : Result E F → Event F E
  zfs_goes : Event F E
  smart_ends : Event F E
  files_ends : Event F E
  zfs_ends : Event F E
  cancels : Event F E
  calls : Call → Event F E

abbrev pub go : Phase → Phase
go starting = looping
go looping = looping
go stopped = stopped

abbrev pub end : Bool → Phase → Phase
end true looping = stopped
end true starting = starting
end true stopped = stopped
end false ph = ph

abbrev pub advance : {F E : Type 0} → Event F E → Phases → Phases
advance (smart_goes r) ph = record ph { smart = go ph.smart }
advance (files_goes r) ph = record ph { files = go ph.files }
advance zfs_goes ph = record ph { zfs = go ph.zfs }
advance smart_ends ph = record ph { smart = end ph.cancelled ph.smart }
advance files_ends ph = record ph { files = end ph.cancelled ph.files }
advance zfs_ends ph = record ph { zfs = end ph.cancelled ph.zfs }
advance cancels ph = record ph { cancelled = true }
advance (calls op) ph = ph

-- The first part of a goroutine up to its ticker, a round of its loop, or nothing.
abbrev pub by_phase : {S : Type 0} → Phase → Outcome S → Outcome S → Outcome S → Outcome S
by_phase starting first round idle = first
by_phase looping first round idle = round
by_phase stopped first round idle = idle

module _ {D F E : Type 0} (db : Database D) (encode : List DiskInfo → Option Text) (cfg : Config)
    (range : List ℕ → List ℕ) where
  unfoldable pub act : Event F E → Phases → Poller D F → Outcome (Poller D F)
  act (smart_goes r) ph p =
      let round = smart_round db encode cfg range r p in
      by_phase ph.smart (round >>= λ q. with_ticker cfg.smart_poll_interval (Broker.ok q)) round
        (Broker.ok p)
  act (files_goes r) ph p =
      let round = files_round cfg range r p in
      by_phase ph.files (round >>= λ q. with_ticker cfg.files_refresh_interval (Broker.ok q)) round
        (Broker.ok p)
  act zfs_goes ph p =
      by_phase ph.zfs (with_ticker cfg.zfs_refresh_interval (Broker.ok p))
        (zfs_round cfg range tt p) (Broker.ok p)
  act (calls op) ph p = do
    b ← Broker.Calls.call range op p.broker
    Broker.ok (record p { broker = b })
  act _ ph p = Broker.ok p

  unfoldable pub run : List (Event F E) → Phases → Poller D F → Outcome (Poller D F)
  run [] ph p = Broker.ok p
  run (e ∷ es) ph p = do q ← act e ph p; run es (advance e ph) q

-- `Start`: the goroutines before their first steps.
abbrev pub start : Phases
start = record { smart = starting; files = starting; zfs = starting; cancelled = false }
