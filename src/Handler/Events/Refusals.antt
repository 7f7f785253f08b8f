-- ===== src/Handler/Events/Refusals.antt =====
-- Which requests for events are turned away.
use zfs_nas_dashboard.Prelude.{
  ℕ, ◌≡◌, refl, subst, inl, inr, Bool, true, false, not, Option, none, some, List, ltb, Bool-cases,
  length,
}
use Prim.Native.String.{String}
use zfs_nas_dashboard.Prelude.Result.{Result}
use zfs_nas_dashboard.Go.Strings.{Text, codes, text_eq}
use zfs_nas_dashboard.Go.Http.{
  Request, Response, header_at, set_header, write_header, write, http_error,
}
use zfs_nas_dashboard.Broker
use zfs_nas_dashboard.Broker.{
  Broker, Chan, Outcome, ◌>>=◌, max_clients, add_count, enter, register, unregister,
}
use zfs_nas_dashboard.Broker.Invariant.{IsValid, register_lem}
use zfs_nas_dashboard.Poller.{Poller}
use zfs_nas_dashboard.Collector.Zfs.Arc.{Float64}
use zfs_nas_dashboard.Collector.Zfs.{ZfsResult}
use zfs_nas_dashboard.Config.{Config}
use zfs_nas_dashboard.Store.Rows.{Sql}
use zfs_nas_dashboard.Handler.{Outside}
use zfs_nas_dashboard.Handler.Events.{Wake, Session, serve_client, handle_events}

-- The status with which a request for events is turned away.
abbrev pub refusal : Bool → Bool → Bool → Option ℕ
refusal false flushes full = some 405
refusal true false full = some 500
refusal true true true = some 503
refusal true true false = none

abbrev pub is_get : Request → Bool
is_get r = text_eq r.method (codes "GET")

abbrev pub is_full : Broker → Bool
is_full b = not (ltb (length b.clients) max_clients)

-- A session that leaves the broker as it was and has sent the status.
abbrev pub Refuses : Broker → ℕ → Outcome Session → Type 0
Refuses b code o =
    (s : Session) × (o ≡ Broker.ok s)
    × (s.broker ≡ b)
    × (s.response.status ≡ some code)
    × (s.returned ≡ true)

refused :
    (b : Broker) (message : String) (code : ℕ) (w : Response)
    → w.status ≡ none
    → Refuses b code
        (Broker.ok (record { broker = b; response = http_error message code w; returned = true }))
unfolding http_error write_header write set_header header_at
refused b message code w e = (
  record { broker = b; response = http_error message code w; returned = true },
  refl,
  refl,
  rw e refl,
  refl,
)

coded :
    (b : Broker) (sent_code code : ℕ) (o : Outcome Session)
    → some sent_code ≡ some code
    → Refuses b sent_code o
    → Refuses b code o
coded b sent_code code o e r = let q : sent_code ≡ code = cc in subst (λ k. Refuses b k o) q r

module _ {C F D E : Type 0} (fl : Float64) (out : Outside C F (ZfsResult fl.F)) (sql : Sql D C E)
    (cfg : Config) (range : List ℕ → List ℕ) where
  full_refused :
      (wakes : List Wake) (init : Result Text Text) (b : Broker) (code : ℕ) (w : Response)
      → w.status ≡ none
      → IsValid b
      → refusal true true (is_full b) ≡ some code
      → Refuses b code (serve_client range wakes init (register b) w)
  unfolding serve_client
  full_refused wakes init b code w n v h = elim (Bool-cases (ltb (length b.clients) max_clients)) [
    | inl e ↦ absurd (cc (h, e))
    | inr e ↦
        rw (register_lem b v.counted, e)
          (coded b 503 code _ (rw e at h) (refused b "too many SSE connections" 503 w n))
  ]

  -- A request for events is turned away exactly as described, with 405 if it is no GET, else with 500
  -- if its connection cannot stream, else with 503 if the broker has 100 clients; the broker is then
  -- as it was. Nothing may have been sent before.
  pub handle_events-Refuses :
      (flushes : Bool) (wakes : List Wake) (r : Request) (p : Poller D F) (code : ℕ) (w : Response)
      → w.status ≡ none
      → IsValid p.broker
      → refusal (is_get r) flushes (is_full p.broker) ≡ some code
      → Refuses p.broker code (handle_events fl out sql cfg range flushes wakes r p w)
  unfolding handle_events serve_client
  handle_events-Refuses flushes wakes r p code w n v h = elim (Bool-cases (is_get r)) [
    | inr e ↦
        rw e (coded p.broker 405 code _ (rw e at h) (refused p.broker "method not allowed" 405 w n))
    | inl e ↦ rw e (elim (Bool-cases flushes) [
      | inr f ↦ rw f (
          coded p.broker 500 code _ (rw (e, f) at h)
            (refused p.broker "streaming unsupported" 500 w n))
      | inl f ↦ rw f (full_refused wakes _ p.broker code w n v (rw (e, f) at h))
    ])
  ]
