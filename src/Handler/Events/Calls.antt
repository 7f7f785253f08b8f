-- ===== src/Handler/Events/Calls.antt =====
-- What the calls of others do to the broker and to the channel of a waiting session.
use zfs_nas_dashboard.Prelude.{
  ℕ, ◌≡◌, refl, ap, ◌∙◌, ◌≢◌, ◌⊎◌, inl, inr, Bool, true, false, not, some, List, [], ◌∷◌, ◌++◌,
  arith, ltb, if◌then◌else◌, Bool-cases, Option-cases, length, get_elem?-lt,
}
use mathlib.Core.List.{append-nil, append_assoc}
use zfs_nas_dashboard.Go.Strings.{Text}
use zfs_nas_dashboard.Broker
use zfs_nas_dashboard.Broker.{
  Broker, Chan, Outcome, channel_buf, max_clients, add_count, enter, register, unregister,
  broadcast, receive, receive_at, take_oldest,
}
use zfs_nas_dashboard.Broker.Members.{member, RangesAll}
use zfs_nas_dashboard.Broker.Invariant.{
  chan_at, IsValid, fresh, get_elem?-append_cases, get_elem?-set, register_lem, register-IsValid,
}
use zfs_nas_dashboard.Broker.Drops.{closed_if, unregister-Drops}
use zfs_nas_dashboard.Broker.Delivery.{delivered, broadcast-Delivers}
use zfs_nas_dashboard.Broker.Threads.Cap.{receive-IsValid}
use zfs_nas_dashboard.Broker.Calls.{Call, registers, unregisters, broadcasts, receives, call}

-- The messages that calls broadcast.
abbrev pub message_of : Call → List Text
message_of registers = []
message_of (unregisters c) = []
message_of (broadcasts msg) = msg ∷ []
message_of (receives c) = []

-- What a channel can still give when `coming` is broadcast: its buffer, and all of that while it
-- is open.
abbrev pub pending : Chan → List Text → List Text
pending ch coming = ch.buf ++ (if ch.closed then [] else coming)

-- Another client's receive.
abbrev pub IsForeign : ℕ → Call → Type 0
IsForeign c registers = Unit
IsForeign c (unregisters j) = Unit
IsForeign c (broadcasts msg) = Unit
IsForeign c (receives j) = j ≢ c

-- What is not left of what the channel can give is lost by closing it.
abbrev pub LostByClosing : Chan → List Text → Type 0
LostByClosing ch lost = (ch.closed ≡ true) ⊎ (lost ≡ [])

-- A channel that is closed stays closed, and nothing is skipped of what the channel can give.
abbrev pub Follows : List Text → Chan → Chan → Type 0
Follows msgs ch' ch =
    (ch.closed ≡ true → ch'.closed ≡ true)
    × ((coming : List Text)
        → (lost : List Text) × (pending ch' coming ++ lost ≡ pending ch (msgs ++ coming))
          × LostByClosing ch' lost)

Follows-refl : (ch : Chan) → Follows [] ch ch
Follows-refl ch = (λ e. e, λ coming. ([], append-nil _, inr refl))

Follows-closed : (msgs : List Text) (ch : Chan) → Follows msgs (record ch { closed = true }) ch
Follows-closed msgs ch = (
  λ e. refl,
  λ coming. (
    if ch.closed then [] else msgs ++ coming,
    ap (λ b. b ++ (if ch.closed then [] else msgs ++ coming)) (append-nil ch.buf),
    inl refl,
  ),
)

Follows-same : (msgs : List Text) (ch : Chan) → ch.closed ≡ true → Follows msgs ch ch
Follows-same msgs ch e = (λ f. f, λ coming. ([], rw e (append-nil _), inr refl))

Follows-append :
    (msg : Text) (ch : Chan)
    → ch.closed ≡ false
    → Follows (msg ∷ []) (record ch { buf = ch.buf ++ msg ∷ [] }) ch
Follows-append msg ch e =
    (λ f. f, λ coming. ([], rw e (append-nil _ ∙ append_assoc ch.buf (msg ∷ []) coming), inr refl))

-- The channel at `c` after a call, `ch` before it.
abbrev pub Continues : ℕ → List Text → Broker → Chan → Type 0
Continues c msgs b' ch = (ch' : Chan) × (chan_at b' c ≡ some ch') × Follows msgs ch' ch

register-Continues :
    (b : Broker) (c : ℕ) (ch : Chan)
    → IsValid b
    → chan_at b c ≡ some ch
    → Continues c [] (register b).0 ch
unfolding enter
register-Continues b c ch v e = (
  ch,
  rw (register_lem b v.counted)
      (ground (arith, get_elem?-append_cases b.chans fresh c, get_elem?-lt b.chans c e)),
  Follows-refl ch,
)

closed_if-Continues :
    (b' : Broker) (c : ℕ) (ch : Chan) (closing : Bool)
    → chan_at b' c ≡ closed_if closing (some ch)
    → Continues c [] b' ch
closed_if-Continues b' c ch true e = (record ch { closed = true }, e, Follows-closed [] ch)
closed_if-Continues b' c ch false e = (ch, e, Follows-refl ch)

delivered-Continues :
    (b' : Broker) (c : ℕ) (ch : Chan) (msg : Text) (listed : Bool)
    → ch.closed ≡ not listed
    → chan_at b' c ≡ delivered msg listed (some ch)
    → Continues c (msg ∷ []) b' ch
delivered-Continues b' c ch msg false o e = (ch, e, Follows-same (msg ∷ []) ch o)
delivered-Continues b' c ch msg true o e = elim (Bool-cases (ltb (length ch.buf) channel_buf)) [
  | inl room ↦ (record ch { buf = ch.buf ++ msg ∷ [] }, rw room at e, Follows-append msg ch o)
  | inr full ↦ (record ch { closed = true }, rw full at e, Follows-closed (msg ∷ []) ch)
]

oldest-other :
    (b : Broker) (j c : ℕ) (cj : Chan) (ms : List Text)
    → j ≢ c
    → chan_at b j ≡ some cj
    → chan_at (take_oldest j b cj ms) c ≡ chan_at b c
unfolding take_oldest
oldest-other b j c cj [] n e = refl
oldest-other b j c cj (m ∷ ms) n e =
    ground (arith, get_elem?-set b.chans j c (record cj { buf = ms }) (get_elem?-lt b.chans j e))

receive-other : (b : Broker) (j c : ℕ) → j ≢ c → chan_at (receive j b) c ≡ chan_at b c
unfolding receive
receive-other b j c n = elim (Option-cases (chan_at b j)) [
  | inl e ↦ rw (e, receive_at) refl
  | inr (cj, e) ↦ rw (e, receive_at) (oldest-other b j c cj cj.buf n e)
]

-- What a call of others does in a valid broker to the channel at `c`.
abbrev pub Calls : (List ℕ → List ℕ) → Call → Broker → ℕ → Chan → Type 0
Calls range op b c ch =
    (b' : Broker) × (call range op b ≡ Broker.ok b')
    × IsValid b'
    × Continues c (message_of op) b' ch

pub call_lem :
    (range : List ℕ → List ℕ)
    → RangesAll range
    → (op : Call) (b : Broker) (c : ℕ) (ch : Chan) → IsValid b
    → chan_at b c ≡ some ch
    → IsForeign c op
    → Calls range op b c ch
unfolding call
call_lem range s registers b c ch v e f =
    ((register b).0, refl, register-IsValid b v, register-Continues b c ch v e)
call_lem range s (unregisters j) b c ch v e f =
    let (b', ran, v', d, again) = unregister-Drops b j v in
    (b', ran, v', closed_if-Continues b' c ch _ (d.chans_closed c ∙ ap (closed_if _) e))
call_lem range s (broadcasts msg) b c ch v e f =
    let (b', ran, d) = broadcast-Delivers msg (range b.clients) b (s b.clients v.linked.keys) v in
    (
      b',
      ran,
      d.valid,
      delivered-Continues b' c ch msg (member c b.clients) (ground (arith, v.linked.open_in_map c))
          (d.chans_after c ∙ ap (delivered msg (member c b.clients)) e),
    )
call_lem range s (receives j) b c ch v e f =
    (receive j b, refl, receive-IsValid b j v, (ch, receive-other b j c f ∙ e, Follows-refl ch))
