-- ===== src/Broker.antt =====
-- internal/broker/broker.go: the hub that fans messages out to the SSE clients.
--
-- A channel is its position in `chans`, the channels made so far; `clients` holds the keys of
-- the Go map. `Register`, `Unregister` and `Broadcast` are here as one caller runs them;
-- Broker/Threads cuts them where goroutines interleave. The order in which Go ranges over the
-- map is not specified: it enters as the argument `snapshot`.
pub mod Members
pub mod Invariant
pub mod Drops
pub mod Delivery
pub mod Threads
pub mod Calls
pub mod Hub
mod Tests
use zfs_nas_dashboard.Prelude.{
  ℕ, zero, suc, ◌+◌, ◌-◌, ◌*◌, ◌/◌, ◌%◌, ◌^◌, ◌≤◌, ◌<◌, ◌≡◌, refl, sym, ap, subst, ◌∙◌, ◌≢◌, ◌↔◌,
  ◌⊎◌, inl, inr, Bool, true, false, not, ◌&&◌, ◌||◌, Option, none, some, List, [], ◌∷◌, ◌++◌, map,
  reverse, arith, dec_lt, ℕ_discrete, ltb, leb, ◌==◌, if◌then◌else◌, ==_iff, Bool-cases,
  Option-cases, length, get_elem?, set, take, drop, All, ℤ, pos, negsuc, ◌+ℤ◌, ◌*ℤ◌, ◌≤ℤ◌, ◌<ℤ◌,
  ltb_ℤ, leb_ℤ, eqb_ℤ, eqb_ℤ_iff, pos_part, neg_part, IsInt64, wrap64,
}
use zfs_nas_dashboard.Go.Strings.{Text}
use Members.{member, delete}

abbrev pub channel_buf : ℕ
channel_buf = 8

abbrev pub max_clients : ℕ
max_clients = 100

-- A `chan []byte`: the messages sent and not yet received, and whether it is closed.
pub record Chan : Type 0 where
  pub buf : List Text
  pub closed : Bool

pub record Broker : Type 0 where
  pub chans : List Chan
  pub clients : List ℕ
  pub count : ℤ

-- A send on a closed channel and a second close panic.
pub data Outcome {ℓ} (A : Type ℓ) : Type ℓ where
  ok : A → Outcome A
  panic : Outcome A

infixl 5 ◌>>=◌
abbrev pub ◌>>=◌ {ℓ κ} : {A : Type ℓ} {B : Type κ} → Outcome A → (A → Outcome B) → Outcome B
ok a >>= f = f a
panic >>= f = panic

abbrev pub new : Broker
new = record { chans = []; clients = []; count = pos 0 }

-- `b.count.Add(d)`; the new value is read back from the field.
abbrev pub add_count : ℤ → Broker → Broker
add_count d b = record b { count = b.count +ℤ d }

-- A fresh channel is entered into the map.
unfoldable pub enter : Broker → Broker
enter b = record b {
  chans = b.chans ++ record { buf = []; closed = false } ∷ [];
  clients = length b.chans ∷ b.clients;
}

-- The test of `Register`, on the counter already raised.
abbrev pub over_cap : Broker → Bool
over_cap b = ltb_ℤ (pos max_clients) b.count

unfoldable pub register : Broker → Broker × Option ℕ
unfolding enter
register b =
    let raised = add_count (pos 1) b in
    if over_cap raised
    then (add_count (negsuc 0) raised, none)
    else (enter raised, some (length b.chans))

close_at : ℕ → Broker → Option Chan → Outcome Broker
close_at c b none = panic
close_at c b (some ch) =
    if ch.closed
    then panic
    else ok (record b { chans = set b.chans c (record ch { closed = true }) })

-- `delete(b.clients, c); close(c)`.
unfoldable pub detach : ℕ → Broker → Outcome Broker
unfolding close_at
detach c b = close_at c (record b { clients = delete c b.clients }) (get_elem? b.chans c)

-- What `Unregister` and the end of `Broadcast` do under the lock: nothing for a channel that is
-- no longer in the map.
unfoldable pub unregister : ℕ → Broker → Outcome Broker
unregister c b =
    let detached = detach c b >>= λ d. ok (add_count (negsuc 0) d) in
    if member c b.clients then detached else ok b

send_at : ℕ → Text → Broker → Option Chan → Outcome (Broker × Bool)
send_at c msg b none = panic
send_at c msg b (some ch) =
    if ch.closed
    then panic
    else if ltb (length ch.buf) channel_buf
    then ok (record b { chans = set b.chans c (record ch { buf = ch.buf ++ msg ∷ [] }) }, true)
    else ok (b, false)

-- `select { case c <- msg: default: }`; the flag says whether the message went in.
unfoldable pub send : ℕ → Text → Broker → Outcome (Broker × Bool)
unfolding send_at
send c msg b = send_at c msg b (get_elem? b.chans c)

unfoldable pub send_all : Text → List ℕ → Broker → List ℕ → Outcome (Broker × List ℕ)
send_all msg [] b slow = ok (b, slow)
send_all msg (c ∷ cs) b slow = do
  r ← send c msg b
  send_all msg cs r.0 (if r.1 then slow else slow ++ c ∷ [])

unfoldable pub drop_all : List ℕ → Broker → Outcome Broker
drop_all [] b = ok b
drop_all (c ∷ cs) b = do b' ← unregister c b; drop_all cs b'

unfoldable pub broadcast : Text → List ℕ → Broker → Outcome Broker
broadcast msg snapshot b = do r ← send_all msg snapshot b []; drop_all r.1 r.0

unfoldable pub take_oldest : ℕ → Broker → Chan → List Text → Broker
take_oldest c b ch [] = b
take_oldest c b ch (m ∷ ms) = record b { chans = set b.chans c (record ch { buf = ms }) }

unfoldable pub receive_at : ℕ → Broker → Option Chan → Broker
unfolding take_oldest
receive_at c b none = b
receive_at c b (some ch) = take_oldest c b ch ch.buf

-- A receive by the client: the oldest message, if there is one.
unfoldable pub receive : ℕ → Broker → Broker
unfolding receive_at
receive c b = receive_at c b (get_elem? b.chans c)
