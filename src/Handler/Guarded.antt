-- ===== src/Handler/Guarded.antt =====
-- internal/handler/handler.go: every route keeps the security headers.
use zfs_nas_dashboard.Prelude.{ℕ, refl, inl, inr, Bool, Option, none, some, List, Bool-cases}
use zfs_nas_dashboard.Prelude.Result.{Result, ok, err}
use zfs_nas_dashboard.Go.Strings.{Text, codes, text_eq}
use zfs_nas_dashboard.Go.Map.{lookup, insert}
use zfs_nas_dashboard.Go.Http.{Request, Response, empty, set_header}
use zfs_nas_dashboard.Broker
use zfs_nas_dashboard.Broker.{Broker, Chan, Outcome, panic, ◌>>=◌, register, unregister}
use zfs_nas_dashboard.Poller.{Poller}
use zfs_nas_dashboard.Collector.Runner.{Error}
use zfs_nas_dashboard.Collector.Zfs.Arc.{Float64}
use zfs_nas_dashboard.Collector.Zfs.{ZfsResult}
use zfs_nas_dashboard.Config.{Config}
use zfs_nas_dashboard.Store.Rows.{Sql}
use zfs_nas_dashboard.Handler.{
  Handler, Outside, security_headers, only_get, write_encoded, write_json, handle_hardware,
  handle_zfs, zfs_response, handle_files, files_response,
}
use zfs_nas_dashboard.Handler.Events.{Wake, Session, handle_events}
use zfs_nas_dashboard.Handler.Router.{
  World, path_is, session_result, events_handler, mux, new_router,
}
use zfs_nas_dashboard.Handler.Headers.{
  Guarded, set_header-Guarded, write-Guarded, http_error-Guarded,
}
use zfs_nas_dashboard.Handler.Events.Guards.{StreamsGuarded, serve_client-StreamsGuarded}

-- Whatever is sent carries the headers.
abbrev pub SendsGuarded : {S : Type 0} → Outcome (S × Response) → Type 0
SendsGuarded (Broker.ok (s, w)) = Guarded w
SendsGuarded panic = Unit

write_encoded-Guarded :
    (encoded : Result Text Text) (w : Response) → Guarded w → Guarded (write_encoded encoded w)
unfolding write_encoded
write_encoded-Guarded (ok text) w g = write-Guarded text w g
write_encoded-Guarded (err e) w g = g

write_json-Guarded :
    (encoded : Result Text Text) (w : Response) → Guarded w → Guarded (write_json encoded w)
unfolding write_json text_eq
write_json-Guarded encoded w g =
    write_encoded-Guarded encoded _ (set_header-Guarded "Content-Type" "application/json" w refl g)

-- What `securityHeaders` sets is there.
security-Guarded : Guarded (
    set_header "Content-Security-Policy"
      "default-src 'none'; script-src 'self'; style-src 'self' 'unsafe-inline'; img-src 'self' data:; connect-src 'self'; frame-ancestors 'none'"
      (set_header "Referrer-Policy" "no-referrer" (
        set_header "X-Content-Type-Options" "nosniff" (set_header "X-Frame-Options" "DENY" empty))))
unfolding set_header insert lookup text_eq
security-Guarded = (refl, (refl, (refl, (refl, tt))))

module _ {C F D E : Type 0} (fl : Float64) (out : Outside C F (ZfsResult fl.F)) (sql : Sql D C E)
    (cfg : Config) where
  zfs_response-Guarded :
      (result : Result Error (ZfsResult fl.F)) (w : Response)
      → Guarded w
      → Guarded (zfs_response fl out sql cfg result w)
  unfolding zfs_response
  zfs_response-Guarded (ok result) w g = write_json-Guarded _ w g
  zfs_response-Guarded (err e) w g = http_error-Guarded _ 500 w g

  files_response-Guarded :
      (result : Option F) (w : Response)
      → Guarded w
      → Guarded (files_response fl out sql cfg result w)
  unfolding files_response
  files_response-Guarded (some result) w g = write_json-Guarded _ w g
  files_response-Guarded none w g = http_error-Guarded _ 503 w g

  only_get-Guarded :
      (serve : Handler (Poller D F)) (r : Request) (p : Poller D F) (w : Response)
      → Guarded w
      → SendsGuarded (serve r p w)
      → SendsGuarded (only_get serve r p w)
  unfolding only_get
  only_get-Guarded serve r p w g h = elim (Bool-cases (text_eq r.method (codes "GET"))) [
    | inl e ↦ rw e h
    | inr e ↦ rw e (http_error-Guarded _ 405 w g)
  ]

  handle_events-Guarded :
      (range : List ℕ → List ℕ) (flushes : Bool) (wakes : List Wake) (r : Request) (p : Poller D F)
      (w : Response)
      → Guarded w
      → StreamsGuarded (handle_events fl out sql cfg range flushes wakes r p w)
  unfolding handle_events
  handle_events-Guarded range flushes wakes r p w g =
      elim (Bool-cases (text_eq r.method (codes "GET"))) [
        | inr e ↦ rw e (http_error-Guarded _ 405 w g)
        | inl e ↦ rw e (elim (Bool-cases flushes) [
          | inr f ↦ rw f (http_error-Guarded _ 500 w g)
          | inl f ↦ rw f (serve_client-StreamsGuarded range wakes _ (register p.broker) w g)
        ])
      ]

  session_result-Guarded :
      (p : Poller D F) (o : Outcome Session)
      → StreamsGuarded o
      → SendsGuarded (o >>= session_result fl out sql cfg p)
  unfolding session_result
  session_result-Guarded p (Broker.ok s) g = g
  session_result-Guarded p panic g = tt

  mux-Guarded :
      (world : World) (static : Handler (Poller D F)) (r : Request) (p : Poller D F) (w : Response)
      → SendsGuarded (static r p w)
      → Guarded w
      → SendsGuarded (mux fl out sql cfg world static r p w)
  unfolding mux handle_hardware handle_zfs handle_files events_handler
  mux-Guarded world static r p w h g = elim (Bool-cases (path_is r "/api/hardware")) [
    | inl e ↦ rw e (only_get-Guarded _ r p w g (write_json-Guarded _ w g))
    | inr e ↦ rw e (elim (Bool-cases (path_is r "/api/zfs")) [
      | inl e ↦ rw e (only_get-Guarded _ r p w g (zfs_response-Guarded _ w g))
      | inr e ↦ rw e (elim (Bool-cases (path_is r "/api/files")) [
        | inl e ↦ rw e (only_get-Guarded _ r p w g (files_response-Guarded _ w g))
        | inr e ↦ rw e (elim (Bool-cases (path_is r "/api/events")) [
          | inl e ↦ rw e (
              session_result-Guarded p _
                (handle_events-Guarded world.range world.flushes world.wakes r p w g))
          | inr e ↦ rw e h
        ])
      ])
    ])
  ]

  -- Every response that the router sends carries the four security headers with their values, on
  -- every path and method, in every state, for errors and for event streams too. The file server
  -- must keep the headers that it is given.
  pub new_router-Guarded :
      (world : World) (static : Handler (Poller D F))
      → ((r : Request) (p : Poller D F) (w : Response) → Guarded w → SendsGuarded (static r p w))
      → (r : Request) (p : Poller D F)
      → SendsGuarded (new_router fl out sql cfg world static r p empty)
  unfolding new_router security_headers
  new_router-Guarded world static h r p =
      let g = security-Guarded in mux-Guarded world static r p _ (h r p _ g) g
