-- ===== src/Handler/Events/Guards.antt =====
-- A session of the event stream keeps the security headers.
use zfs_nas_dashboard.Prelude.{
  ℕ, refl, inl, inr, Bool, true, false, Option, none, some, List, [], ◌∷◌, Bool-cases, get_elem?,
}
use zfs_nas_dashboard.Prelude.Result.{Result, ok, err}
use zfs_nas_dashboard.Go.Strings.{Text, text_eq}
use zfs_nas_dashboard.Go.Http.{Response}
use zfs_nas_dashboard.Broker
use zfs_nas_dashboard.Broker.{Broker, Chan, Outcome, panic, ◌>>=◌, register, unregister}
use zfs_nas_dashboard.Broker.Calls.{call}
use zfs_nas_dashboard.Handler.Events.{
  Wake, other, ready, done, frame, Session, take_message, select_message, stream, leave,
  stream_headers, write_init, serve_client,
}
use zfs_nas_dashboard.Handler.Headers.{
  Guarded, set_header-Guarded, write-Guarded, http_error-Guarded,
}

abbrev pub StreamsGuarded : Outcome Session → Type 0
StreamsGuarded (Broker.ok s) = Guarded s.response
StreamsGuarded panic = Unit

>>=-StreamsGuarded :
    (m : Outcome Broker) (k : Broker → Outcome Session)
    → ((b : Broker) → StreamsGuarded (k b))
    → StreamsGuarded (m >>= k)
>>=-StreamsGuarded (Broker.ok b) k h = h b
>>=-StreamsGuarded panic k h = tt

take_message-StreamsGuarded :
    (rest : Broker → Response → Outcome Session) (c : ℕ) (b : Broker) (w : Response) (closed : Bool)
    (buf : List Text)
    → ((b : Broker) (w : Response) → Guarded w → StreamsGuarded (rest b w))
    → Guarded w
    → StreamsGuarded (take_message rest c b w closed buf)
unfolding take_message
take_message-StreamsGuarded rest c b w closed (m ∷ ms) h g = h _ _ (write-Guarded (frame m) w g)
take_message-StreamsGuarded rest c b w true [] h g = g
take_message-StreamsGuarded rest c b w false [] h g = h b w g

select_message-StreamsGuarded :
    (rest : Broker → Response → Outcome Session) (c : ℕ) (b : Broker) (w : Response)
    (o : Option Chan)
    → ((b : Broker) (w : Response) → Guarded w → StreamsGuarded (rest b w))
    → Guarded w
    → StreamsGuarded (select_message rest c b w o)
unfolding select_message
select_message-StreamsGuarded rest c b w none h g = h b w g
select_message-StreamsGuarded rest c b w (some ch) h g =
    take_message-StreamsGuarded rest c b w ch.closed ch.buf h g

stream-StreamsGuarded :
    (range : List ℕ → List ℕ) (c : ℕ) (wakes : List Wake) (b : Broker) (w : Response)
    → Guarded w
    → StreamsGuarded (stream range c wakes b w)
unfolding stream
stream-StreamsGuarded range c [] b w g = g
stream-StreamsGuarded range c (other op ∷ wakes) b w g =
    >>=-StreamsGuarded (call range op b) _ (λ b'. stream-StreamsGuarded range c wakes b' w g)
stream-StreamsGuarded range c (ready ∷ wakes) b w g =
    select_message-StreamsGuarded (stream range c wakes) c b w (get_elem? b.chans c)
      (stream-StreamsGuarded range c wakes) g
stream-StreamsGuarded range c (done ∷ wakes) b w g = g

leave-StreamsGuarded :
    (c : ℕ) (o : Outcome Session) → StreamsGuarded o → StreamsGuarded (o >>= leave c)
unfolding leave
leave-StreamsGuarded c panic g = tt
leave-StreamsGuarded c (Broker.ok s) g = elim (Bool-cases s.returned) [
  | inl e ↦ rw e (>>=-StreamsGuarded (unregister c s.broker) _ (λ b. g))
  | inr e ↦ rw e g
]

write_init-Guarded :
    (init : Result Text Text) (w : Response) → Guarded w → Guarded (write_init init w)
unfolding write_init
write_init-Guarded (ok msg) w g = write-Guarded (frame msg) w g
write_init-Guarded (err e) w g = g

stream_headers-Guarded : (w : Response) → Guarded w → Guarded (stream_headers w)
unfolding stream_headers text_eq
stream_headers-Guarded w g = set_header-Guarded "X-Accel-Buffering" "no" _ refl (
    set_header-Guarded "Connection" "keep-alive" _ refl (
      set_header-Guarded "Cache-Control" "no-cache" _ refl
        (set_header-Guarded "Content-Type" "text/event-stream" w refl g)))

pub serve_client-StreamsGuarded :
    (range : List ℕ → List ℕ) (wakes : List Wake) (init : Result Text Text) (r : Broker × Option ℕ)
    (w : Response)
    → Guarded w
    → StreamsGuarded (serve_client range wakes init r w)
unfolding serve_client
serve_client-StreamsGuarded range wakes init (b, none) w g = http_error-Guarded _ 503 w g
serve_client-StreamsGuarded range wakes init (b, some c) w g = leave-StreamsGuarded c _ (
    stream-StreamsGuarded range c wakes b _
      (write_init-Guarded init _ (stream_headers-Guarded w g)))
