-- ===== src/Handler/Serves.antt =====
-- internal/handler/handler.go: a request is answered, and changes nothing but the broker.
use zfs_nas_dashboard.Prelude.{
  ℕ, ◌≡◌, refl, sym, subst, inl, inr, Bool, true, false, none, List, Bool-cases, Option-cases,
  length,
}
use zfs_nas_dashboard.Go.Strings.{Text, codes, text_eq}
use zfs_nas_dashboard.Go.Http.{Request, Response, empty, header_at, set_header}
use zfs_nas_dashboard.Broker
use zfs_nas_dashboard.Broker.{Broker, Outcome, ◌>>=◌}
use zfs_nas_dashboard.Broker.Members.{RangesAll}
use zfs_nas_dashboard.Broker.Invariant.{IsValid}
use zfs_nas_dashboard.Poller.{Poller}
use zfs_nas_dashboard.Collector.Zfs.Arc.{Float64}
use zfs_nas_dashboard.Collector.Zfs.{ZfsResult}
use zfs_nas_dashboard.Config.{Config}
use zfs_nas_dashboard.Store.Rows.{Sql}
use zfs_nas_dashboard.Handler.{
  Handler, Outside, security_headers, only_get, handle_hardware, handle_zfs, handle_files,
}
use zfs_nas_dashboard.Handler.Events.{Session, handle_events}
use zfs_nas_dashboard.Handler.Events.Stream.{AllForeign}
use zfs_nas_dashboard.Handler.Events.Sessions.{Ends, handle_events-Ends}
use zfs_nas_dashboard.Handler.Events.Refusals.{
  refusal, is_get, is_full, Refuses, handle_events-Refuses,
}
use zfs_nas_dashboard.Handler.Router.{
  World, path_is, session_result, events_handler, mux, new_router,
}
use zfs_nas_dashboard.Handler.Headers.{Guarded}
use zfs_nas_dashboard.Handler.Guarded.{SendsGuarded, new_router-Guarded}

-- A response is sent, no panic: the broker is valid, and the store and the caches are as before.
abbrev pub Serves : {D F : Type 0} → Poller D F → Outcome (Poller D F × Response) → Type 0
Serves p o =
    (b : Broker) × (w : Response) × (o ≡ Broker.ok (record p { broker = b }, w)) × IsValid b

-- The same, with the security headers on the response.
abbrev pub Answers : {D F : Type 0} → Poller D F → Outcome (Poller D F × Response) → Type 0
Answers p o =
    (b : Broker) × (w : Response) × (o ≡ Broker.ok (record p { broker = b }, w))
    × IsValid b
    × Guarded w

abbrev Settles : Outcome Session → Type 0
Settles o = (s : Session) × (o ≡ Broker.ok s) × IsValid s.broker

module _ {C F D E : Type 0} (fl : Float64) (out : Outside C F (ZfsResult fl.F)) (sql : Sql D C E)
    (cfg : Config) where
  only_get-Serves :
      (serve : Handler (Poller D F)) (r : Request) (p : Poller D F) (w : Response)
      → IsValid p.broker
      → Serves p (serve r p w)
      → Serves p (only_get serve r p w)
  unfolding only_get
  only_get-Serves serve r p w v h = elim (Bool-cases (text_eq r.method (codes "GET"))) [
    | inl e ↦ rw e h
    | inr e ↦ rw e (p.broker, _, refl, v)
  ]

  session_result-Serves :
      (p : Poller D F) (o : Outcome Session)
      → Settles o
      → Serves p (o >>= session_result fl out sql cfg p)
  unfolding session_result
  session_result-Serves p o (s, ran, v) = rw ran (s.broker, s.response, refl, v)

  Refuses-Settles :
      (b : Broker) (code : ℕ) (o : Outcome Session) → IsValid b → Refuses b code o → Settles o
  Refuses-Settles b code o v (s, ran, same, status, returned) = (s, ran, subst IsValid (sym same) v)

  Ends-Settles :
      (c : ℕ) (before : Text) (coming : List Text) (o : Outcome Session)
      → Ends c before coming o
      → Settles o
  Ends-Settles c before coming o (s, ran, v, left, got) = (s, ran, v)

  settles :
      (world : World) (flushes : Bool) (r : Request) (p : Poller D F) (w : Response)
      → RangesAll world.range
      → w.status ≡ none
      → IsValid p.broker
      → AllForeign (length p.broker.chans) world.wakes
      → Settles (handle_events fl out sql cfg world.range flushes world.wakes r p w)
  settles world false r p w ranges n v f = elim (Bool-cases (is_get r)) [
    | inl e ↦
        Refuses-Settles p.broker 500 _ v
          (handle_events-Refuses fl out sql cfg world.range false world.wakes r p 500 w n v (rw e))
    | inr e ↦
        Refuses-Settles p.broker 405 _ v
          (handle_events-Refuses fl out sql cfg world.range false world.wakes r p 405 w n v (rw e))
  ]
  settles world true r p w ranges n v f =
      elim (Option-cases (refusal (is_get r) true (is_full p.broker))) [
        | inl e ↦
            Ends-Settles _ _ _ _
              (handle_events-Ends fl out sql cfg world.range ranges world.wakes r p w v e f)
        | inr (code, e) ↦
            Refuses-Settles p.broker code _ v
              (handle_events-Refuses fl out sql cfg world.range true world.wakes r p code w n v e)
      ]

  mux-Serves :
      (world : World) (static : Handler (Poller D F)) (r : Request) (p : Poller D F) (w : Response)
      → RangesAll world.range
      → w.status ≡ none
      → IsValid p.broker
      → AllForeign (length p.broker.chans) world.wakes
      → Serves p (static r p w)
      → Serves p (mux fl out sql cfg world static r p w)
  unfolding mux handle_hardware handle_zfs handle_files events_handler
  mux-Serves world static r p w ranges n v f h = elim (Bool-cases (path_is r "/api/hardware")) [
    | inl e ↦ rw e (only_get-Serves _ r p w v (p.broker, _, refl, v))
    | inr e ↦ rw e (elim (Bool-cases (path_is r "/api/zfs")) [
      | inl e ↦ rw e (only_get-Serves _ r p w v (p.broker, _, refl, v))
      | inr e ↦ rw e (elim (Bool-cases (path_is r "/api/files")) [
        | inl e ↦ rw e (only_get-Serves _ r p w v (p.broker, _, refl, v))
        | inr e ↦ rw e (elim (Bool-cases (path_is r "/api/events")) [
          | inl e ↦
              rw e (session_result-Serves p _ (settles world world.flushes r p w ranges n v f))
          | inr e ↦ rw e h
        ])
      ])
    ])
  ]

  -- The router answers every request in a valid broker, without a panic: the four security headers
  -- are on the response whatever the path, the method and the state, the broker is valid afterwards,
  -- and the store and the caches are as before. The file server must do the same, nobody else may
  -- receive from the channel of the request, and ranges are over all clients.
  pub new_router-Answers :
      (world : World) (static : Handler (Poller D F))
      → ((r : Request) (p : Poller D F) (w : Response) → Guarded w → SendsGuarded (static r p w))
      → ((r : Request) (p : Poller D F) (w : Response) → IsValid p.broker → Serves p (static r p w))
      → RangesAll world.range
      → (r : Request) (p : Poller D F) → IsValid p.broker
      → AllForeign (length p.broker.chans) world.wakes
      → Answers p (new_router fl out sql cfg world static r p empty)
  unfolding new_router security_headers set_header header_at
  new_router-Answers world static guards serves ranges r p v f =
      let (b, w, ran, v') = mux-Serves world static r p _ ranges refl v f (serves r p _ v) in
      (
        b,
        w,
        ran,
        v',
        subst SendsGuarded ran (new_router-Guarded fl out sql cfg world static guards r p),
      )
