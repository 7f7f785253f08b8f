-- ===== src/Broker/Hub/Refines.antt =====
-- The broker of internal/broker/broker.go, call by call, against what it promises.
use zfs_nas_dashboard.Prelude.{
  ℕ, zero, suc, ◌≡◌, refl, ap, subst, ◌∙◌, inl, inr, Bool, true, false, ◌&&◌, Option, none, some,
  List, [], ◌∷◌, ◌++◌, map, arith, ltb, ◌==◌, if◌then◌else◌, Bool-cases, Option-cases, length,
  get_elem?, get_elem?-lt, set,
}
use mathlib.Core.List.{map-append}
use zfs_nas_dashboard.Go.Strings.{Text}
use zfs_nas_dashboard.Broker.{
  Broker, Chan, max_clients, register, receive, receive_at, take_oldest, enter,
}
use zfs_nas_dashboard.Broker.Members.{member, delete}
use zfs_nas_dashboard.Broker.Invariant.{
  chan_at, ClosedIn, IsLinked, IsValid, client-open, close, close-IsLinked, get_elem?-set,
  register_lem, fresh,
}
use zfs_nas_dashboard.Broker.Drops.{closed_if}
use zfs_nas_dashboard.Broker.Delivery.{delivered}
use zfs_nas_dashboard.Broker.Calls.{registers, reply, head_reply, chan_reply}
use zfs_nas_dashboard.Broker.Hub.{
  Mailbox, live, gone, Hub, live_count, at, leave, offer, pop, shown, call,
}

abbrev pub mailbox : Chan → Mailbox
mailbox ch = if ch.closed then gone ch.buf else live ch.buf

-- The broker's channels as mailboxes; the map and the counter are forgotten.
abbrev pub view : Broker → Hub
view b = map mailbox b.chans

abbrev pub omap : {A B : Type 0} → (A → B) → Option A → Option B
omap f none = none
omap f (some a) = some (f a)

ext : {A : Type 0} (xs ys : List A) → ((i : ℕ) → get_elem? xs i ≡ get_elem? ys i) → xs ≡ ys
ext [] [] h = refl
ext [] (y ∷ ys) h = cc (h 0)
ext (x ∷ xs) [] h = cc (h 0)
ext (x ∷ xs) (y ∷ ys) h = cc (h 0, ext xs ys (λ i. h (suc i)))

pub get_elem?-map :
    {A B : Type 0} (f : A → B) (xs : List A) (i : ℕ)
    → get_elem? (map f xs) i ≡ omap f (get_elem? xs i)
get_elem?-map f [] i = refl
get_elem?-map f (x ∷ xs) zero = refl
get_elem?-map f (x ∷ xs) (suc i) = get_elem?-map f xs i

pub get_elem?-at :
    {A : Type 0} (c : ℕ) (f : A → A) (xs : List A) (i : ℕ)
    → get_elem? (at c f xs) i ≡ (if c == i then omap f (get_elem? xs i) else get_elem? xs i)
get_elem?-at c f [] i = ground arith
get_elem?-at zero f (x ∷ xs) zero = ground arith
get_elem?-at zero f (x ∷ xs) (suc i) = ground arith
get_elem?-at (suc c) f (x ∷ xs) zero = ground arith
get_elem?-at (suc c) f (x ∷ xs) (suc i) = ground (arith, get_elem?-at c f xs i)

pub length-map : {A B : Type 0} (f : A → B) (xs : List A) → length (map f xs) ≡ length xs
length-map f [] = refl
length-map f (x ∷ xs) = ap suc (length-map f xs)

live_count-close :
    (chans : List Chan) (c : ℕ) (ch : Chan)
    → get_elem? chans c ≡ some ch
    → ch.closed ≡ false
    → suc (live_count (map mailbox (set chans c (record ch { closed = true }))))
      ≡ live_count (map mailbox chans)
unfolding live_count
live_count-close [] c ch e o = cc
live_count-close (x ∷ xs) zero ch e o = ground arith
live_count-close (x ∷ xs) (suc c) ch e o = omega (arith, live_count-close xs c ch e o)

none_live :
    (chans : List Chan)
    → ((j : ℕ) → ClosedIn false (get_elem? chans j))
    → live_count (map mailbox chans) ≡ 0
unfolding live_count
none_live [] h = refl
none_live (x ∷ xs) h = ground (arith, h 0, none_live xs (λ j. h (suc j)))

-- The clients in the map are the mailboxes that live.
pub live_count-clients :
    (cs : List ℕ) (b : Broker) → b.clients ≡ cs → IsLinked b → live_count (view b) ≡ length cs
unfolding member delete
live_count-clients [] b e l =
    none_live b.chans (λ j. subst (λ cs. ClosedIn (member j cs) (chan_at b j)) e (l.open_in_map j))
live_count-clients (c ∷ cs) b e l =
    let (ch, f, o) = client-open b c l (ground (arith, e)) in
    omega (
      arith,
      live_count-close b.chans c ch f o,
      live_count-clients cs (close b c ch) (ground (arith, e)) (close-IsLinked b c ch l f),
    )

view-enter : (b : Broker) → view (enter b) ≡ view b ++ live [] ∷ []
unfolding enter
view-enter b = map-append mailbox b.chans (fresh ∷ [])

pub register_refines :
    (b : Broker) → IsValid b → (view (register b).0, reply registers b) ≡ call registers (view b)
unfolding call reply
register_refines b v =
    let n = live_count-clients b.clients b refl v.linked in
    elim (Bool-cases (ltb (length b.clients) max_clients)) [
      | inl e ↦ rw (register_lem b v.counted, e, n, e, view-enter, length-map mailbox b.chans) refl
      | inr e ↦ rw (register_lem b v.counted, e, n, e) refl
    ]

closed_if-leave :
    (c j : ℕ) (listed : Bool) (o : Option Chan)
    → ClosedIn listed o
    → omap mailbox (closed_if (c == j && listed) o)
      ≡ (if c == j then omap leave (omap mailbox o) else omap mailbox o)
closed_if-leave c j listed none h = ground arith
closed_if-leave c j listed (some ch) h = ground arith

pub unregister-view :
    (b b' : Broker) (c : ℕ)
    → IsLinked b
    → ((j : ℕ) → chan_at b' j ≡ closed_if (c == j && member j b.clients) (chan_at b j))
    → view b' ≡ at c leave (view b)
unregister-view b b' c l h = ext _ _ λ j.
    get_elem?-map mailbox b'.chans j
    ∙ ap (omap mailbox) (h j)
    ∙ closed_if-leave c j (member j b.clients) (chan_at b j) (l.open_in_map j)
    ∙ rw (get_elem?-at c leave (view b) j, get_elem?-map mailbox b.chans j) refl

delivered-offer :
    (msg : Text) (listed : Bool) (o : Option Chan)
    → ClosedIn listed o
    → omap mailbox (delivered msg listed o) ≡ omap (offer msg) (omap mailbox o)
delivered-offer msg listed none h = refl
delivered-offer msg listed (some ch) h = ground arith

pub broadcast-view :
    (msg : Text) (b b' : Broker)
    → IsLinked b
    → ((j : ℕ) → chan_at b' j ≡ delivered msg (member j b.clients) (chan_at b j))
    → view b' ≡ map (offer msg) (view b)
broadcast-view msg b b' l h = ext _ _ λ j.
    get_elem?-map mailbox b'.chans j
    ∙ ap (omap mailbox) (h j)
    ∙ delivered-offer msg (member j b.clients) (chan_at b j) (l.open_in_map j)
    ∙ rw (get_elem?-map (offer msg) (view b) j, get_elem?-map mailbox b.chans j) refl

oldest-view :
    (c : ℕ) (b : Broker) (ch : Chan) (ms : List Text) (j : ℕ)
    → chan_at b c ≡ some ch
    → ch.buf ≡ ms
    → omap mailbox (chan_at (take_oldest c b ch ms) j)
      ≡ (if c == j then omap pop (omap mailbox (chan_at b j)) else omap mailbox (chan_at b j))
unfolding take_oldest
oldest-view c b ch [] j e f = ground (arith, e, f)
oldest-view c b ch (m ∷ ms) j e f =
    ground
      (arith, e, f, get_elem?-set b.chans c j (record ch { buf = ms }), get_elem?-lt b.chans c e)

receive-chan_at :
    (c : ℕ) (b : Broker) (j : ℕ)
    → omap mailbox (chan_at (receive c b) j)
      ≡ (if c == j then omap pop (omap mailbox (chan_at b j)) else omap mailbox (chan_at b j))
unfolding receive
receive-chan_at c b j = elim (Option-cases (chan_at b c)) [
  | inl e ↦ rw (e, receive_at) (ground (arith, e))
  | inr (ch, e) ↦ rw (e, receive_at) (oldest-view c b ch ch.buf j e refl)
]

pub receive-view : (c : ℕ) (b : Broker) → view (receive c b) ≡ at c pop (view b)
receive-view c b = ext _ _ λ j.
    get_elem?-map mailbox (receive c b).chans j
    ∙ receive-chan_at c b j
    ∙ rw (get_elem?-at c pop (view b) j, get_elem?-map mailbox b.chans j) refl

head_reply-shown :
    (closed : Bool) (buf : List Text)
    → head_reply closed buf ≡ shown (some (if closed then gone buf else live buf))
head_reply-shown true [] = refl
head_reply-shown false [] = refl
head_reply-shown true (m ∷ ms) = refl
head_reply-shown false (m ∷ ms) = refl

pub chan_reply-shown : (o : Option Chan) → chan_reply o ≡ shown (omap mailbox o)
chan_reply-shown none = refl
chan_reply-shown (some ch) = head_reply-shown ch.closed ch.buf
