-- ===== src/Handler/Events.antt =====
-- internal/handler/handler.go: the stream of server-sent events.
--
-- While the handler waits in its `select`, the rest of the program calls the broker: a session is a
-- list of what happens, in which the calls of others are whole.
pub mod Calls
pub mod Stream
pub mod Refusals
pub mod Guards
pub mod Sessions
use zfs_nas_dashboard.Prelude.{
  ℕ, zero, suc, ◌+◌, ◌-◌, ◌*◌, ◌/◌, ◌%◌, ◌^◌, ◌≤◌, ◌<◌, ◌≡◌, refl, sym, ap, subst, ◌∙◌, ◌≢◌, ◌↔◌,
  ◌⊎◌, inl, inr, Bool, true, false, not, ◌&&◌, ◌||◌, Option, none, some, List, [], ◌∷◌, ◌++◌, map,
  reverse, arith, dec_lt, ℕ_discrete, ltb, leb, ◌==◌, if◌then◌else◌, ==_iff, Bool-cases,
  Option-cases, length, get_elem?, get_elem?-lt, length-append, set, take, drop, In, In-append,
  either, both, All, ℤ, pos, negsuc, ◌+ℤ◌, ◌*ℤ◌, ◌≤ℤ◌, ◌<ℤ◌, ltb_ℤ, leb_ℤ, eqb_ℤ, eqb_ℤ_iff,
  pos_part, neg_part, IsInt64, wrap64, sub_ℕ,
}
use zfs_nas_dashboard.Prelude.Result.{Result, ok, err}
use zfs_nas_dashboard.Go.Strings.{Text, codes, text_eq}
use zfs_nas_dashboard.Go.Http.{Request, Response, set_header, write, http_error}
use zfs_nas_dashboard.Broker
use zfs_nas_dashboard.Broker.{
  Broker, Chan, Outcome, panic, ◌>>=◌, register, unregister, broadcast, receive,
}
use zfs_nas_dashboard.Broker.Calls.{Call, call}
use zfs_nas_dashboard.Poller.{Poller, history_length}
use zfs_nas_dashboard.Collector.Zfs.Arc.{Float64}
use zfs_nas_dashboard.Collector.Zfs.{ZfsResult}
use zfs_nas_dashboard.Config.{Config}
use zfs_nas_dashboard.Store.Rows.{Sql, get_since}
use zfs_nas_dashboard.Handler.{Handler, Outside, hardware_of, not_allowed}

-- What a waiting session meets: a call of others, a look at its channel, or the end of its request.
pub data Wake : Type 0 where
  other : Call → Wake
  ready : Wake
  done : Wake

-- One event on the wire.
unfoldable pub frame : Text → Text
frame msg = codes "data: " ++ (msg ++ codes "\n\n")

-- The broker, the response, and whether the loop has returned.
pub record Session : Type 0 where
  pub broker : Broker
  pub response : Response
  pub returned : Bool

unfoldable pub take_message :
    (Broker → Response → Outcome Session)
    → ℕ
    → Broker
    → Response
    → Bool
    → List Text
    → Outcome Session
take_message rest c b w closed (m ∷ ms) = rest (receive c b) (write (frame m) w)
take_message rest c b w true [] = Broker.ok (record { broker = b; response = w; returned = true })
take_message rest c b w false [] = rest b w

-- The receive of the select: a message is passed on, a closed channel ends the loop, and an empty
-- one is not ready.
unfoldable pub select_message :
    (Broker → Response → Outcome Session) → ℕ → Broker → Response → Option Chan → Outcome Session
unfolding take_message
select_message rest c b w none = rest b w
select_message rest c b w (some ch) = take_message rest c b w ch.closed ch.buf

-- The loop.
unfoldable pub stream : (List ℕ → List ℕ) → ℕ → List Wake → Broker → Response → Outcome Session
unfolding select_message
stream range c [] b w = Broker.ok (record { broker = b; response = w; returned = false })
stream range c (other op ∷ wakes) b w = do b' ← call range op b; stream range c wakes b' w
stream range c (ready ∷ wakes) b w =
    select_message (stream range c wakes) c b w (get_elem? b.chans c)
stream range c (done ∷ wakes) b w = Broker.ok (record { broker = b; response = w; returned = true })

-- The deferred Unregister, once the loop has returned.
unfoldable pub leave : ℕ → Session → Outcome Session
leave c s =
    let left = unregister c s.broker >>= λ b. Broker.ok (record s { broker = b }) in
    if s.returned then left else Broker.ok s

-- The headers of an event stream.
unfoldable pub stream_headers : Response → Response
stream_headers w = set_header "X-Accel-Buffering" "no" (
    set_header "Connection" "keep-alive"
      (set_header "Cache-Control" "no-cache" (set_header "Content-Type" "text/event-stream" w)))

-- The first event, if it can be encoded.
unfoldable pub write_init : Result Text Text → Response → Response
write_init (ok msg) w = write (frame msg) w
write_init (err e) w = w

unfoldable pub serve_client :
    (List ℕ → List ℕ)
    → List Wake
    → Result Text Text
    → Broker × Option ℕ
    → Response
    → Outcome Session
serve_client range wakes init (b, none) w =
    Broker.ok (record {
      broker = b;
      response = http_error "too many SSE connections" 503 w;
      returned = true;
    })
serve_client range wakes init (b, some c) w =
    stream range c wakes b (write_init init (stream_headers w)) >>= leave c

module _ {C F D E : Type 0} (fl : Float64) (out : Outside C F (ZfsResult fl.F)) (sql : Sql D C E)
    (cfg : Config) where
  -- The payload of the first event; an error of the history is ignored here.
  unfoldable pub init_event : Poller D F → Result Text Text
  init_event p =
      out.marshal_init (hardware_of fl out sql cfg p (get_since sql (history_length cfg) p.store).0)

  -- `handleEvents`; `flushes` says whether the connection can stream.
  unfoldable pub handle_events :
      (List ℕ → List ℕ) → Bool → List Wake → Request → Poller D F → Response → Outcome Session
  handle_events range flushes wakes r p w =
      if not (text_eq r.method (codes "GET"))
      then Broker.ok (record { broker = p.broker; response = not_allowed w; returned = true })
      else if not flushes
      then Broker.ok (record {
        broker = p.broker;
        response = http_error "streaming unsupported" 500 w;
        returned = true;
      })
      else serve_client range wakes (init_event p) (register p.broker) w
