-- ===== src/Broker/Hub.antt =====
-- What the broker of internal/broker/broker.go promises: a mailbox for each client that was ever
-- granted, in the order of the grants.
pub mod Refines
pub mod Simulates
pub mod Backlog
pub mod Mailboxes
mod Tests
use zfs_nas_dashboard.Prelude.{
  ℕ, zero, suc, ◌+◌, ◌-◌, ◌*◌, ◌/◌, ◌%◌, ◌^◌, ◌≤◌, ◌<◌, ◌≡◌, refl, sym, ap, subst, ◌∙◌, ◌≢◌, ◌↔◌,
  ◌⊎◌, inl, inr, Bool, true, false, not, ◌&&◌, ◌||◌, Option, none, some, List, [], ◌∷◌, ◌++◌, map,
  reverse, arith, dec_lt, ℕ_discrete, ltb, leb, ◌==◌, if◌then◌else◌, ==_iff, Bool-cases,
  Option-cases, length, get_elem?, get_elem?-lt, get_elem?-append_left, get_elem?-append_self,
  get_elem?-set_self, get_elem?-set_ne, length-append, set, take, drop, In, In-append, either, both,
  All, ℤ, pos, negsuc, ◌+ℤ◌, ◌*ℤ◌, ◌≤ℤ◌, ◌<ℤ◌, ltb_ℤ, leb_ℤ, eqb_ℤ, eqb_ℤ_iff, pos_part, neg_part,
  IsInt64, wrap64, sub_ℕ,
}
use zfs_nas_dashboard.Go.Strings.{Text}
use zfs_nas_dashboard.Broker.{channel_buf, max_clients}
use zfs_nas_dashboard.Broker.Calls.{
  Call, registers, unregisters, broadcasts, receives, Reply, granted, refused, message, ended,
  waits, silent,
}

-- The messages that wait for a client that is registered, and for one that is not any more.
pub data Mailbox : Type 0 where
  live : List Text → Mailbox
  gone : List Text → Mailbox

abbrev pub Hub : Type 0
Hub = List Mailbox

abbrev pub weight : Mailbox → ℕ
weight (live q) = 1
weight (gone q) = 0

unfoldable pub live_count : Hub → ℕ
live_count [] = 0
live_count (x ∷ hub) = weight x + live_count hub

abbrev pub at : {A : Type 0} → ℕ → (A → A) → List A → List A
at i f [] = []
at zero f (x ∷ xs) = f x ∷ xs
at (suc i) f (x ∷ xs) = x ∷ at i f xs

abbrev pub leave : Mailbox → Mailbox
leave (live q) = gone q
leave (gone q) = gone q

-- A full mailbox costs its client the registration.
abbrev pub offer : Text → Mailbox → Mailbox
offer msg (live q) = if ltb (length q) channel_buf then live (q ++ msg ∷ []) else gone q
offer msg (gone q) = gone q

abbrev pub rest : List Text → List Text
rest [] = []
rest (m ∷ ms) = ms

abbrev pub pop : Mailbox → Mailbox
pop (live q) = live (rest q)
pop (gone q) = gone (rest q)

abbrev pub shown : Option Mailbox → Reply
shown none = waits
shown (some (live [])) = waits
shown (some (gone [])) = ended
shown (some (live (m ∷ q))) = message m
shown (some (gone (m ∷ q))) = message m

unfoldable pub call : Call → Hub → Hub × Reply
call registers hub =
    if ltb (live_count hub) max_clients
    then (hub ++ live [] ∷ [], granted (length hub))
    else (hub, refused)
call (unregisters c) hub = (at c leave hub, silent)
call (broadcasts msg) hub = (map (offer msg) hub, silent)
call (receives c) hub = (at c pop hub, shown (get_elem? hub c))

unfoldable pub run : List Call → Hub → Hub × List Reply
run [] hub = (hub, [])
run (c ∷ cs) hub = let after = run cs (call c hub).0 in (after.0, (call c hub).1 ∷ after.1)
