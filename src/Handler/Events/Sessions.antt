-- ===== src/Handler/Events/Sessions.antt =====
-- A session of the event stream from its registration to its end.
use zfs_nas_dashboard.Prelude.{
  ℕ, ◌<◌, ◌≡◌, refl, sym, ap, subst, ◌∙◌, inl, inr, Bool, true, false, ◌&&◌, none, some, List, [],
  ◌++◌, arith, Bool-cases, length, pos,
}
use Prim.Native.String.{String}
use mathlib.Core.List.{append-nil}
use zfs_nas_dashboard.Prelude.Result.{Result, ok, err}
use zfs_nas_dashboard.Go.Strings.{Text}
use zfs_nas_dashboard.Go.Http.{Request, Response, set_header, write}
use zfs_nas_dashboard.Broker
use zfs_nas_dashboard.Broker.{
  Broker, Chan, Outcome, ◌>>=◌, max_clients, add_count, enter, register, unregister,
}
use zfs_nas_dashboard.Broker.Members.{member, RangesAll}
use zfs_nas_dashboard.Broker.Invariant.{
  chan_at, IsValid, fresh, get_elem?-append_cases, register_lem, register-IsValid,
}
use zfs_nas_dashboard.Broker.Drops.{closed_if, unregister-Drops}
use zfs_nas_dashboard.Poller.{Poller}
use zfs_nas_dashboard.Collector.Zfs.Arc.{Float64}
use zfs_nas_dashboard.Collector.Zfs.{ZfsResult}
use zfs_nas_dashboard.Config.{Config}
use zfs_nas_dashboard.Store.Rows.{Sql}
use zfs_nas_dashboard.Handler.{Outside}
use zfs_nas_dashboard.Handler.Events.{
  Wake, frame, Session, stream, leave, stream_headers, write_init, serve_client, init_event,
  handle_events,
}
use zfs_nas_dashboard.Handler.Events.Stream.{sent, AllForeign, frames, Got, Streams, stream-Goes}
use zfs_nas_dashboard.Handler.Events.Refusals.{refusal, is_get, is_full}

set_header-body : (key value : String) (w : Response) → (set_header key value w).body ≡ w.body
unfolding set_header
set_header-body key value w = ground arith

stream_headers-body : (w : Response) → (stream_headers w).body ≡ w.body
unfolding stream_headers
stream_headers-body w = simp set_header-body

-- The bytes of the first event.
abbrev pub init_frames : Result Text Text → Text
init_frames (ok msg) = frame msg
init_frames (err e) = []

write_init-body :
    (init : Result Text Text) (w : Response)
    → (write_init init (stream_headers w)).body ≡ w.body ++ init_frames init
unfolding write_init write
write_init-body (ok msg) w = ap (λ b. b ++ frame msg) (stream_headers-body w)
write_init-body (err e) w = stream_headers-body w ∙ sym (append-nil w.body)

-- The session at its end: it has left the broker if its loop has returned.
abbrev pub Ends : ℕ → Text → List Text → Outcome Session → Type 0
Ends c before coming o =
    (s : Session) × (o ≡ Broker.ok s)
    × IsValid s.broker
    × ((s.returned && member c s.broker.clients) ≡ false)
    × ((taken : List Text) × (s.response.body ≡ before ++ frames taken)
        × Got c s.broker taken coming)

Got-closed_if :
    (c : ℕ) (b b' : Broker) (closing : Bool) (taken coming : List Text)
    → chan_at b' c ≡ closed_if closing (chan_at b c)
    → Got c b taken coming
    → Got c b' taken coming
Got-closed_if c b b' true taken coming e (ch, f, (lost, g, why)) =
    (record ch { closed = true }, e ∙ ap (closed_if true) f, (lost, g, inl refl))
Got-closed_if c b b' false taken coming e (ch, f, (lost, g, why)) =
    (ch, e ∙ ap (closed_if false) f, (lost, g, why))

leave-Ends :
    (c : ℕ) (closed : Bool) (before : Text) (coming : List Text) (o : Outcome Session)
    → Streams c closed before coming o
    → Ends c before coming (o >>= leave c)
unfolding leave member
leave-Ends c closed before coming o (s, ran, v, keeps, (taken, body, got)) =
    rw ran (elim (Bool-cases s.returned) [
      | inl e ↦
          let (b', left, v', d, again) = unregister-Drops s.broker c v in
          (
            record s { broker = b' },
            rw (e, left) refl,
            v',
            ground (arith, d.keys_left c),
            (taken, body, Got-closed_if c s.broker b' _ taken coming (d.chans_closed c) got),
          )
      | inr e ↦ (s, rw e refl, v, rw e refl, (taken, body, got))
    ])

abbrev pub granted : Broker → Broker
granted b = enter (add_count (pos 1) b)

granted-fresh : (b : Broker) → chan_at (granted b) (length b.chans) ≡ some fresh
unfolding enter
granted-fresh b = get_elem?-append_cases b.chans fresh (length b.chans) ∙ ground arith

module _ (range : List ℕ → List ℕ) (ranges : RangesAll range) where
  serve_client-Ends :
      (wakes : List Wake) (init : Result Text Text) (b : Broker) (w : Response)
      → IsValid b
      → length b.clients < max_clients
      → AllForeign (length b.chans) wakes
      → Ends
          (length b.chans)
          (w.body ++ init_frames init)
          (sent wakes)
          (serve_client range wakes init (register b) w)
  unfolding serve_client
  serve_client-Ends wakes init b w v room f =
      let e : register b ≡ (granted b, some (length b.chans)) =
        rw (register_lem b v.counted) (ground arith) in
      let v' = subst (λ r. IsValid r.0) e (register-IsValid b v) in
      rw e (
        leave-Ends (length b.chans) false (w.body ++ init_frames init) (sent wakes) _ (
          subst
            (λ t. Streams (length b.chans) false t (sent wakes) (
              stream range (length b.chans) wakes (granted b) (write_init init (stream_headers w))))
            (write_init-body init w)
            (stream-Goes range ranges (length b.chans) wakes f (granted b) _ fresh v'
              (granted-fresh b))))

module _ {C F D E : Type 0} (fl : Float64) (out : Outside C F (ZfsResult fl.F)) (sql : Sql D C E)
    (cfg : Config) (range : List ℕ → List ℕ) where
  -- A granted session, whatever the rest of the program does to the broker meanwhile, never panics
  -- and keeps the broker valid; its client is sent the first event, if it can be encoded, and then
  -- messages that were broadcast since its registration, in their order and with none left out: the
  -- next ones are queued at its channel, and the rest is lost only if the channel is closed. Once its
  -- loop returns it is out of the broker. Nobody else may receive from its channel.
  pub handle_events-Ends :
      RangesAll range
      → (wakes : List Wake) (r : Request) (p : Poller D F) (w : Response) → IsValid p.broker
      → refusal (is_get r) true (is_full p.broker) ≡ none
      → AllForeign (length p.broker.chans) wakes
      → Ends
          (length p.broker.chans)
          (w.body ++ init_frames (init_event fl out sql cfg p))
          (sent wakes)
          (handle_events fl out sql cfg range true wakes r p w)
  unfolding handle_events
  handle_events-Ends ranges wakes r p w v g f = elim (Bool-cases (is_get r)) [
    | inl e ↦ rw e (
        serve_client-Ends range ranges wakes (init_event fl out sql cfg p) p.broker w v
          (ground arith) f)
    | inr e ↦ absurd (cc (g, e))
  ]
