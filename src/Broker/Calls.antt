-- ===== src/Broker/Calls.antt =====
-- internal/broker/broker.go: its operations as calls, one after the other, and what they answer.
use zfs_nas_dashboard.Prelude.{
  ℕ, ◌≡◌, refl, Bool, true, false, Option, none, some, List, [], ◌∷◌, get_elem?,
}
use zfs_nas_dashboard.Go.Strings.{Text}
use zfs_nas_dashboard.Broker.{
  Broker, Chan, Outcome, ok, panic, ◌>>=◌, register, unregister, broadcast, receive,
}

-- A call of the broker.
pub data Call : Type 0 where
  registers : Call
  unregisters : ℕ → Call
  broadcasts : Text → Call
  receives : ℕ → Call

-- The call; `range` is the order in which a broadcast ranges over the clients.
unfoldable pub call : (List ℕ → List ℕ) → Call → Broker → Outcome Broker
call range registers b = ok (register b).0
call range (unregisters c) b = unregister c b
call range (broadcasts msg) b = broadcast msg (range b.clients) b
call range (receives c) b = ok (receive c b)

-- What a caller sees: a client's number or a refusal from `Register`, and at a receive a message,
-- the end of a closed channel, or that there is nothing yet.
pub data Reply : Type 0 where
  granted : ℕ → Reply
  refused : Reply
  message : Text → Reply
  ended : Reply
  waits : Reply
  silent : Reply

abbrev pub grant_reply : Option ℕ → Reply
grant_reply none = refused
grant_reply (some c) = granted c

abbrev pub head_reply : Bool → List Text → Reply
head_reply closed (m ∷ ms) = message m
head_reply true [] = ended
head_reply false [] = waits

abbrev pub chan_reply : Option Chan → Reply
chan_reply none = waits
chan_reply (some ch) = head_reply ch.closed ch.buf

unfoldable pub reply : Call → Broker → Reply
reply registers b = grant_reply (register b).1
reply (receives c) b = chan_reply (get_elem? b.chans c)
reply _ b = silent

-- The calls in their order, with the replies.
unfoldable pub run : (List ℕ → List ℕ) → List Call → Broker → Outcome (Broker × List Reply)
run range [] b = ok (b, [])
run range (c ∷ cs) b = do b' ← call range c b; r ← run range cs b'; ok (r.0, reply c b ∷ r.1)

-- A sequence that does not panic has a first part that does not.
pub bind-ok :
    {A B : Type 0} (o : Outcome A) (k : A → Outcome B) (b : B)
    → (o >>= k) ≡ ok b
    → (a : A) × (o ≡ ok a) × (k a ≡ ok b)
bind-ok (ok a) k b e = (a, refl, e)
bind-ok panic k b e = cc
