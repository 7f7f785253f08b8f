-- ===== src/Handler/Router.antt =====
-- internal/handler/handler.go: `NewRouter`.
use zfs_nas_dashboard.Prelude.{ℕ, Bool, List, if◌then◌else◌}
use Prim.Native.String.{String}
use zfs_nas_dashboard.Prelude.Result.{Result}
use zfs_nas_dashboard.Go.Strings.{Text, codes, text_eq}
use zfs_nas_dashboard.Go.Http.{Request, Response}
use zfs_nas_dashboard.Broker
use zfs_nas_dashboard.Broker.{Broker, Outcome, ◌>>=◌}
use zfs_nas_dashboard.Poller.{Poller}
use zfs_nas_dashboard.Collector.Runner.{Error, CommandRunner}
use zfs_nas_dashboard.Collector.Zfs.Arc.{Float64}
use zfs_nas_dashboard.Collector.Zfs.{ZfsResult}
use zfs_nas_dashboard.Config.{Config}
use zfs_nas_dashboard.Store.Rows.{Sql}
use zfs_nas_dashboard.Handler.{
  Handler, Outside, security_headers, only_get, handle_hardware, handle_zfs, handle_files,
}
use zfs_nas_dashboard.Handler.Events.{Wake, Session, handle_events}

-- What a request meets outside: what the commands print and arcstats holds, whether its connection
-- can stream, what happens while its events are streamed, and the order of ranges over the clients.
pub record World : Type 0 where
  pub run : CommandRunner
  pub arcstats : Result Error Text
  pub flushes : Bool
  pub wakes : List Wake
  pub range : List ℕ → List ℕ

abbrev pub path_is : Request → String → Bool
path_is r path = text_eq r.path (codes path)

module _ {C F D E : Type 0} (fl : Float64) (out : Outside C F (ZfsResult fl.F)) (sql : Sql D C E)
    (cfg : Config) where
  unfoldable pub session_result : Poller D F → Session → Outcome (Poller D F × Response)
  session_result p s = Broker.ok (record p { broker = s.broker }, s.response)

  unfoldable pub events_handler : World → Handler (Poller D F)
  unfolding session_result
  events_handler world r p w =
      handle_events fl out sql cfg world.range world.flushes world.wakes r p w >>= session_result p

  -- The choice of the pattern by `ServeMux`.
  unfoldable pub mux : World → Handler (Poller D F) → Handler (Poller D F)
  mux world static r p w =
      if path_is r "/api/hardware"
      then only_get (handle_hardware fl out sql cfg) r p w
      else if path_is r "/api/zfs"
      then only_get (handle_zfs fl out sql cfg world.run world.arcstats) r p w
      else if path_is r "/api/files"
      then only_get (handle_files fl out sql cfg) r p w
      else if path_is r "/api/events"
      then events_handler world r p w
      else static r p w

  -- `NewRouter`; `static` serves the embedded files.
  unfoldable pub new_router : World → Handler (Poller D F) → Handler (Poller D F)
  new_router world static = security_headers (mux world static)
