-- ===== src/Handler/Events/Stream.antt =====
-- What a client of the event stream is sent.
use zfs_nas_dashboard.Prelude.{
  ℕ, ◌≡◌, refl, sym, ap, subst, ◌∙◌, inl, inr, Bool, true, false, some, List, [], ◌∷◌, ◌++◌, arith,
  if◌then◌else◌, get_elem?-lt,
}
use mathlib.Core.List.{append-nil, append_assoc}
use zfs_nas_dashboard.Go.Strings.{Text}
use zfs_nas_dashboard.Go.Http.{Response, write}
use zfs_nas_dashboard.Broker
use zfs_nas_dashboard.Broker.{Broker, Chan, Outcome, ◌>>=◌, receive, receive_at, take_oldest}
use zfs_nas_dashboard.Broker.Members.{RangesAll}
use zfs_nas_dashboard.Broker.Threads.Cap.{receive-IsValid}
use zfs_nas_dashboard.Broker.Invariant.{chan_at, IsValid, get_elem?-set}
use zfs_nas_dashboard.Broker.Calls.{Call, call}
use zfs_nas_dashboard.Handler.Events.{
  Wake, other, ready, done, frame, Session, take_message, select_message, stream,
}
use zfs_nas_dashboard.Handler.Events.Calls.{
  LostByClosing, Follows, message_of, pending, IsForeign, Calls, call_lem,
}

-- The messages broadcast while the loop runs.
abbrev pub sent : List Wake → List Text
sent [] = []
sent (other op ∷ wakes) = message_of op ++ sent wakes
sent (ready ∷ wakes) = sent wakes
sent (done ∷ wakes) = []

-- Nobody else receives from the session's channel.
abbrev pub AllForeign : ℕ → List Wake → Type 0
AllForeign c [] = Unit
AllForeign c (other op ∷ wakes) = IsForeign c op × AllForeign c wakes
AllForeign c (ready ∷ wakes) = AllForeign c wakes
AllForeign c (done ∷ wakes) = AllForeign c wakes

abbrev pub frames : List Text → Text
frames [] = []
frames (m ∷ ms) = frame m ++ frames ms

-- The client got `taken` of the messages `coming`: the next ones are queued at the channel `c`, and
-- the rest is there only if the channel is closed.
abbrev pub Got : ℕ → Broker → List Text → List Text → Type 0
Got c b taken coming =
    (ch : Chan) × (chan_at b c ≡ some ch)
    × ((lost : List Text) × ((taken ++ ch.buf) ++ lost ≡ coming) × LostByClosing ch lost)

abbrev StaysClosed : ℕ → Bool → Broker → Type 0
StaysClosed c closed b = closed ≡ true → (ch : Chan) → chan_at b c ≡ some ch → ch.closed ≡ true

-- A session that does not panic, from a channel that was `closed`: the broker is valid after it, and
-- the client got messages of `coming` behind what it had.
abbrev pub Streams : ℕ → Bool → Text → List Text → Outcome Session → Type 0
Streams c closed before coming o =
    (s : Session) × (o ≡ Broker.ok s)
    × IsValid s.broker
    × StaysClosed c closed s.broker
    × ((taken : List Text) × (s.response.body ≡ before ++ frames taken)
        × Got c s.broker taken coming)

-- What a call loses is lost by closing the channel, which the rest of the session does not undo.
Streams-after :
    (c : ℕ) (ch' ch : Chan) (msgs coming : List Text) (before : Text) (o : Outcome Session)
    → Follows msgs ch' ch
    → Streams c ch'.closed before (pending ch' coming) o
    → Streams c ch.closed before (pending ch (msgs ++ coming)) o
Streams-after c ch' ch msgs coming before o (closes, follows)
      (s, ran, v, stays_closed, (taken, body, (e, at_c, (lost, f, why)))) =
    let (more, g, whence) = follows coming in
    (
      s,
      ran,
      v,
      (λ h. stays_closed (closes h)),
      (
        taken,
        body,
        (
          e,
          at_c,
          (
            lost ++ more,
            sym (append_assoc (taken ++ e.buf) lost more) ∙ ap (λ l. l ++ more) f ∙ g,
            elim whence [
              | inl h ↦ inl (stays_closed h e at_c)
              | inr h ↦ elim why [ inl k ↦ inl k | inr k ↦ inr (rw (h, k) refl) ]
            ],
          ),
        ),
      ),
    )

stays :
    (b : Broker) (w : Response) (returned : Bool) (c : ℕ) (ch : Chan)
    → IsValid b
    → chan_at b c ≡ some ch
    → Streams c ch.closed w.body
        (pending ch [])
        (Broker.ok (record { broker = b; response = w; returned = returned }))
stays b w returned c ch v e = (
  record { broker = b; response = w; returned = returned },
  refl,
  v,
  (λ h d f. ground (arith, e, f, h)),
  ([], sym (append-nil w.body), (ch, e, (if ch.closed then [] else [], refl, inr (ground arith)))),
)

receive_self :
    (b : Broker) (c : ℕ) (ch : Chan) (m : Text) (ms : List Text)
    → chan_at b c ≡ some ch
    → ch.buf ≡ m ∷ ms
    → chan_at (receive c b) c ≡ some (record ch { buf = ms })
unfolding receive receive_at take_oldest
receive_self b c ch m ms e f =
    rw (e, receive_at, f, take_oldest)
      (get_elem?-set b.chans c c (record ch { buf = ms }) (get_elem?-lt b.chans c e) ∙ ground arith)

-- What the rest of the loop does from a broker and a response on.
abbrev pub Goes : (Broker → Response → Outcome Session) → ℕ → List Text → Type 0
Goes rest c coming =
    (b : Broker) (w : Response) (ch : Chan)
    → IsValid b
    → chan_at b c ≡ some ch
    → Streams c ch.closed w.body (pending ch coming) (rest b w)

take_message-Streams :
    (rest : Broker → Response → Outcome Session) (c : ℕ) (b : Broker) (w : Response) (ch : Chan)
    (closed : Bool) (buf coming : List Text)
    → Goes rest c coming
    → IsValid b
    → chan_at b c ≡ some ch
    → ch.closed ≡ closed
    → ch.buf ≡ buf
    → Streams c closed w.body
        (buf ++ (if closed then [] else coming))
        (take_message rest c b w closed buf)
unfolding take_message write
take_message-Streams rest c b w ch closed (m ∷ ms) coming g v e o f =
    let (s, ran, v', keeps, (taken, body, (d, at_c, (lost, q, why)))) =
      g (receive c b) (write (frame m) w) (record ch { buf = ms }) (receive-IsValid b c v)
        (receive_self b c ch m ms e f) in
    (
      s,
      ran,
      v',
      (λ h. keeps (o ∙ h)),
      (
        m ∷ taken,
        body ∙ append_assoc w.body (frame m) (frames taken),
        (d, at_c, (lost, ap (λ t. m ∷ t) (q ∙ ap (λ z. ms ++ (if z then [] else coming)) o), why)),
      ),
    )
take_message-Streams rest c b w ch true [] coming g v e o f =
    subst (λ xs. Streams c true w.body xs (take_message rest c b w true [])) (rw (f, o) refl)
      (subst (λ z. Streams c z w.body (pending ch []) (take_message rest c b w true [])) o
        (stays b w true c ch v e))
take_message-Streams rest c b w ch false [] coming g v e o f =
    subst (λ xs. Streams c false w.body xs (rest b w)) (rw (f, o) refl)
      (subst (λ z. Streams c z w.body (pending ch coming) (rest b w)) o (g b w ch v e))

module _ (range : List ℕ → List ℕ) (ranges : RangesAll range) where
  >>=-Streams :
      (c : ℕ) (op : Call) (rest : Broker → Response → Outcome Session) (b : Broker) (w : Response)
      (ch : Chan) (coming : List Text)
      → Goes rest c coming
      → Calls range op b c ch
      → Streams c ch.closed w.body
          (pending ch (message_of op ++ coming))
          (call range op b >>= λ b'. rest b' w)
  >>=-Streams c op rest b w ch coming g (b', ran, v', (ch', e', follows)) =
      rw ran (
        Streams-after c ch' ch (message_of op) coming w.body (rest b' w) follows (g b' w ch' v' e'))

  pub stream-Goes :
      (c : ℕ) (wakes : List Wake) → AllForeign c wakes → Goes (stream range c wakes) c (sent wakes)
  unfolding stream select_message
  stream-Goes c [] f b w ch v e = stays b w false c ch v e
  stream-Goes c (done ∷ wakes) f b w ch v e = stays b w true c ch v e
  stream-Goes c (other op ∷ wakes) f b w ch v e =
      >>=-Streams c op (stream range c wakes) b w ch (sent wakes) (stream-Goes c wakes f.1)
        (call_lem range ranges op b c ch v e f.0)
  stream-Goes c (ready ∷ wakes) f b w ch v e =
      rw (e, select_message)
        (take_message-Streams (stream range c wakes) c b w ch ch.closed ch.buf (sent wakes)
          (stream-Goes c wakes f) v e refl refl)
