-- ===== src/Broker/Hub/Mailboxes.antt =====
-- A client that reads as fast as its mailbox fills.
use zfs_nas_dashboard.Prelude.{
  ℕ, ◌-◌, ◌<◌, ◌≡◌, refl, sym, ap, subst, ◌∙◌, inl, inr, some, List, [], ◌∷◌, ◌++◌, arith,
  ℕ_discrete, Option-cases, length, get_elem?, get_elem?-lt, get_elem?-append_left,
  get_elem?-append_self, length-append,
}
use mathlib.Core.List.{append-nil, append_assoc}
use zfs_nas_dashboard.Go.Strings.{Text}
use zfs_nas_dashboard.Broker
use zfs_nas_dashboard.Broker.{Broker, ok, channel_buf, max_clients}
use zfs_nas_dashboard.Broker.Members.{RangesAll}
use zfs_nas_dashboard.Broker.Invariant.{IsValid}
use zfs_nas_dashboard.Broker.Calls
use zfs_nas_dashboard.Broker.Calls.{
  Call, registers, unregisters, broadcasts, receives, Reply, granted, refused, message, ended,
  waits, silent,
}
use zfs_nas_dashboard.Broker.Hub.{live, Hub, live_count, at, offer, pop, leave, shown, call, run}
use zfs_nas_dashboard.Broker.Hub.Refines.{
  view, mailbox, get_elem?-map, get_elem?-at, live_count-clients, length-map,
}
use zfs_nas_dashboard.Broker.Hub.Simulates.{run_refines}
use zfs_nas_dashboard.Broker.Hub.Backlog.{
  messages, text_of, taken_by, taken, backlog_after, backlog,
}

-- After a call client `c` has the queue `q'`, of `q` before it.
abbrev Moves : ℕ → Call → Hub → List Text → List Text → Type 0
Moves c op hub q q' =
    (get_elem? (call op hub).0 c ≡ some (live q'))
    × (taken_by c op (call op hub).1 ++ q' ≡ q ++ messages (op ∷ []))

pop-Moves :
    (c : ℕ) (hub : Hub) (q : List Text) (n : ℕ)
    → get_elem? hub c ≡ some (live q)
    → some (length q - 1) ≡ some n
    → (q' : List Text) × (length q' ≡ n)
      × (get_elem? (at c pop hub) c ≡ some (live q'))
      × (text_of (shown (some (live q))) ++ q' ≡ q ++ [])
pop-Moves c hub [] n e h =
    ([], ground (arith, h), get_elem?-at c pop hub c ∙ ground (arith, e), refl)
pop-Moves c hub (m ∷ q) n e h =
    (q, ground (arith, h), get_elem?-at c pop hub c ∙ ground (arith, e), sym (append-nil (m ∷ q)))

call-Moves :
    (c : ℕ) (op : Call) (hub : Hub) (q : List Text) (n : ℕ)
    → get_elem? hub c ≡ some (live q)
    → backlog_after c op (length q) ≡ some n
    → (q' : List Text) × (length q' ≡ n) × Moves c op hub q q'
unfolding call
call-Moves c registers hub q n e h = (
  q,
  ground (arith, h),
  (
    ground (arith, e, get_elem?-append_left hub (live [] ∷ []) c, get_elem?-lt hub c e),
    sym (append-nil q),
  ),
)
call-Moves c (unregisters j) hub q n e h =
    (q, ground (arith, h), (get_elem?-at j leave hub c ∙ ground (arith, h, e), sym (append-nil q)))
call-Moves c (broadcasts msg) hub q n e h = (
  q ++ msg ∷ [],
  ground (arith, h, length-append {0} q (msg ∷ [])),
  (get_elem?-map (offer msg) hub c ∙ rw e (ground (arith, h)), refl),
)
call-Moves c (receives j) hub q n e h = elim (ℕ_discrete j c) [
  | yes s ↦
      let (q', k, f, g) = pop-Moves c hub q n e (ground (arith, h, s)) in
      (q', k, (ground (arith, s, f), ground (arith, s, e, g)))
  | no s ↦ (
    q,
    ground (arith, h, s),
    (get_elem?-at j pop hub c ∙ ground (arith, e, s), ground (arith, s, append-nil q)),
  )
]

messages-cons :
    (op : Call) (ops : List Call) → messages (op ∷ ops) ≡ messages (op ∷ []) ++ messages ops
messages-cons registers ops = refl
messages-cons (unregisters j) ops = refl
messages-cons (broadcasts msg) ops = refl
messages-cons (receives j) ops = refl

-- A client that keeps up stays registered, and what it receives and what still waits for it is what
-- waited before and then every message broadcast meanwhile.
abbrev pub Keeps : ℕ → List Call → List Text → ℕ → Hub × List Reply → Type 0
Keeps c ops q n r =
    (q' : List Text) × (length q' ≡ n)
    × (get_elem? r.0 c ≡ some (live q'))
    × (taken c ops r.1 ++ q' ≡ q ++ messages ops)

run-Keeps :
    (c : ℕ) (ops : List Call) (hub : Hub) (q : List Text) (n : ℕ)
    → get_elem? hub c ≡ some (live q)
    → backlog c ops (length q) ≡ some n
    → Keeps c ops q n (run ops hub)
unfolding run backlog
run-Keeps c [] hub q n e h = (q, ground (arith, h), e, sym (append-nil q))
run-Keeps c (op ∷ ops) hub q n e h = elim (Option-cases (backlog_after c op (length q))) [
  | inl f ↦ absurd (cc (h, f))
  | inr (k, f) ↦
      let (q', l, (at_c, got)) = call-Moves c op hub q k e f in
      let (q'', l', at_c', got') =
        run-Keeps c ops (call op hub).0 q' n at_c (ap (backlog c ops) l ∙ (rw f at h)) in
      let t = taken_by c op (call op hub).1 in
      let r = taken c ops (run ops (call op hub).0).1 in
      (
        q'',
        l',
        at_c',
        append_assoc t r q''
            ∙ ap (λ x. t ++ x) got'
            ∙ sym (append_assoc t q' (messages ops))
            ∙ ap (λ x. x ++ messages ops) got
            ∙ append_assoc q (messages (op ∷ [])) (messages ops)
            ∙ ap (λ x. q ++ x) (sym (messages-cons op ops)),
      )
]

register-live :
    (hub : Hub)
    → live_count hub < max_clients
    → call registers hub ≡ (hub ++ live [] ∷ [], granted (length hub))
unfolding call
register-live hub h = ground arith

length-zero : {A : Type 0} (xs : List A) → length xs ≡ 0 → xs ≡ []
length-zero [] h = refl
length-zero (x ∷ xs) h = absurd (omega (arith, h))

-- Client `c` is registered, `n` messages wait for it, and with those that it received they are all
-- that was broadcast, in order; so with none waiting it has received all.
abbrev pub Hears : ℕ → List Call → ℕ → Broker → List Reply → Type 0
Hears c ops n b replies =
    ((q : List Text) × (length q ≡ n)
      × (get_elem? (view b) c ≡ some (live q))
      × (taken c ops replies ++ q ≡ messages ops))
    × (n ≡ 0 → taken c ops replies ≡ messages ops)

-- A client that is granted while there is room and then reads in step, so that never more than
-- eight messages wait for it, and does not unregister, gets every message broadcast since, once and
-- in order, but for the last ones that still wait for it; once none wait it has got them all.
-- Whatever else is called in between, nothing panics and the broker stays valid.
pub granted-gets_all :
    (range : List ℕ → List ℕ)
    → RangesAll range
    → (ops : List Call) (b : Broker) (n : ℕ) → IsValid b
    → length b.clients < max_clients
    → backlog (length b.chans) ops 0 ≡ some n
    → (b' : Broker) × (replies : List Reply) × (Broker.Calls.run range (registers ∷ ops) b
        ≡ ok (b', granted (length b.chans) ∷ replies))
      × IsValid b'
      × Hears (length b.chans) ops n b' replies
unfolding run
granted-gets_all range ranges ops b n v room h =
    let c = length b.chans in
    let hub = view b in
    let (b', replies, ran, v', same) = run_refines range ranges (registers ∷ ops) b v in
    let granted_c : call registers hub ≡ (hub ++ live [] ∷ [], granted c) =
      register-live hub (omega (arith, room, live_count-clients b.clients b refl v.linked))
      ∙ rw (length-map mailbox b.chans) refl in
    let r = run ops (hub ++ live [] ∷ []) in
    let (q, l, at_c, got) : Keeps c ops [] n r =
      run-Keeps c ops (hub ++ live [] ∷ []) [] n
        (subst (λ k. get_elem? (hub ++ live [] ∷ []) k ≡ some (live []))
          (length-map mailbox b.chans) (get_elem?-append_self hub (live [])))
        h in
    let replied : (view b', replies) ≡ (r.0, granted c ∷ r.1) = same ∙ rw granted_c refl in
    (
      b',
      r.1,
      ran ∙ ap (λ x. ok (b', x)) (ap (λ x. x.1) replied),
      v',
      (
        (q, l, ap (λ x. get_elem? x.0 c) replied ∙ at_c, got),
        λ z.
            sym (append-nil _) ∙ ap (λ x. taken c ops r.1 ++ x) (sym (length-zero q (l ∙ z))) ∙ got,
      ),
    )
