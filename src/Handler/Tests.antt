-- ===== src/Handler/Tests.antt =====
-- Requests to a server that has one client, and a session that sees one broadcast.
use zfs_nas_dashboard.Prelude.{refl, true, none, some, List, [], ◌∷◌, ℤ, pos, leb_ℤ}
use zfs_nas_dashboard.Prelude.Result.{ok, err}
use zfs_nas_dashboard.Go.Strings.{Text, codes, text_eq}
use zfs_nas_dashboard.Go.Http.{Request, Response, empty}
use zfs_nas_dashboard.Broker
use zfs_nas_dashboard.Broker.{Broker, Outcome}
use zfs_nas_dashboard.Broker.Members.{RangesAll-self}
use zfs_nas_dashboard.Broker.Invariant.{IsValid, new-IsValid}
use zfs_nas_dashboard.Config.{Config}
use zfs_nas_dashboard.Config.Errors.{described}
use zfs_nas_dashboard.Collector.Zfs.Arc.{Float64}
use zfs_nas_dashboard.Collector.Zfs.{ZfsResult}
use zfs_nas_dashboard.Poller.{Poller}
use zfs_nas_dashboard.Store.JournalTests
use zfs_nas_dashboard.Store.JournalTests.{Journal, at_noon}
use zfs_nas_dashboard.Handler.{Handler, Outside}
use zfs_nas_dashboard.Handler.Events.{Wake, other, ready, done, handle_events, init_event}
use zfs_nas_dashboard.Broker.Calls.{registers, broadcasts}
use zfs_nas_dashboard.Handler.Events.Sessions.{Ends, init_frames, handle_events-Ends}
use zfs_nas_dashboard.Handler.Events.Refusals.{Refuses, handle_events-Refuses}
use zfs_nas_dashboard.Handler.Router.{World, new_router}
use zfs_nas_dashboard.Handler.Serves.{Serves, Answers, new_router-Answers}

-- Floats in percent, as integers.
abbrev percent : Float64
percent = record {
  F = ℤ;
  parse_float = λ s. pos 0;
  of_int64 = λ a. a;
  div = λ a b. a;
  ge = λ a b. leb_ℤ b a;
  zero_float = pos 0;
  four_fifths = pos 80;
  one_half = pos 50;
}

abbrev outside : Outside ℤ Text (ZfsResult percent.F)
outside = record {
  encode_hardware = λ h. ok (codes "{}");
  encode_zfs = λ z. ok (codes "{}");
  encode_files = λ f. ok f;
  marshal_init = λ h. ok (codes "init");
  int_seconds = λ d. d;
}

abbrev config : Config
config = described (λ name. [])

abbrev server : Poller Journal Text
server = record { store = at_noon; broker = Broker.new; smart = []; files = none }

-- Another client comes, a message is broadcast and received, and the request ends.
abbrev one_message : List Wake
one_message = other registers ∷ other (broadcasts (codes "hello")) ∷ ready ∷ done ∷ []

abbrev get_events : Request
get_events = record { method = codes "GET"; path = codes "/api/events" }

abbrev post_events : Request
post_events = record { method = codes "POST"; path = codes "/api/events" }

handle_events-Ends_example :
    Ends 0
      (init_frames (init_event percent outside JournalTests.journal config server))
      (codes "hello" ∷ [])
      (handle_events percent outside JournalTests.journal config
        (λ cs. cs)
        true
        one_message
        get_events
        server
        empty)
unfolding text_eq
handle_events-Ends_example =
    handle_events-Ends percent outside JournalTests.journal config (λ cs. cs) RangesAll-self
      one_message get_events server empty new-IsValid refl (tt, (tt, tt))

handle_events-Refuses_example : Refuses Broker.new 405 (
    handle_events percent outside JournalTests.journal config
      (λ cs. cs)
      true
      one_message
      post_events
      server
      empty)
unfolding text_eq
handle_events-Refuses_example =
    handle_events-Refuses percent outside JournalTests.journal config (λ cs. cs) true one_message
      post_events server 405 empty refl new-IsValid refl

abbrev world : World
world = record {
  run = λ name args. err (codes "no such command");
  arcstats = ok [];
  flushes = true;
  wakes = one_message;
  range = λ cs. cs;
}

-- A file server that has no files.
abbrev nothing : Handler (Poller Journal Text)
nothing r p w = Broker.ok (p, record w { status = some 404 })

nothing-Serves :
    (r : Request) (p : Poller Journal Text) (w : Response)
    → IsValid p.broker
    → Serves p (nothing r p w)
nothing-Serves r p w v = (p.broker, record w { status = some 404 }, refl, v)

new_router-Answers_example :
    Answers server
      (new_router percent outside JournalTests.journal config world nothing get_events server empty)
new_router-Answers_example =
    new_router-Answers percent outside JournalTests.journal config world nothing (λ r p w g. g)
      nothing-Serves RangesAll-self get_events server new-IsValid (tt, (tt, tt))
