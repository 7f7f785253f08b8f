-- ===== src/Broker/Threads/Schedules.antt =====
-- The parts of a call of the broker as atomic steps, one after the other.
use zfs_nas_dashboard.Prelude.{
  ℕ, ◌+◌, ◌≡◌, refl, sym, ap, ◌∙◌, ◌⊎◌, inl, inr, Bool, true, false, List, [], ◌∷◌, ◌++◌, arith,
  if◌then◌else◌, Bool-cases, length, get_elem?-append_self, set, All-append, All, negsuc,
}
use mathlib.Core.List.{append-nil}
use zfs_nas_dashboard.Go.Strings.{Text}
use zfs_nas_dashboard.Broker.Members.{member}
use zfs_nas_dashboard.Broker.{
  Broker, ok, ◌>>=◌, add_count, detach, unregister, send, send_all, drop_all,
}
use zfs_nas_dashboard.Broker.Calls.{Call, registers, unregisters, broadcasts, receives, bind-ok}
use zfs_nas_dashboard.Broker.Threads.ClosedSend.{run-step}
use zfs_nas_dashboard.Broker.Threads.{
  Cast, System, Event, raises, enters, refuses, lowers, leaves, snapshots, sends, drops,
  receives as receive_event, leave, send_next, send_of, drop_next, drop_of, step, run,
}

set-append : {A : Type 0} (xs : List A) (v w : A) → set (xs ++ v ∷ []) (length xs) w ≡ xs ++ w ∷ []
set-append [] v w = refl
set-append (x ∷ xs) v w = ap (λ l. x ∷ l) (set-append xs v w)

-- The steps that a call consists of; `i` is the number of its broadcast.
abbrev pub IsPart : Call → ℕ → Event → Type 0
IsPart registers i raises = Unit
IsPart registers i enters = Unit
IsPart registers i refuses = Unit
IsPart (unregisters c) i (leaves j) = j ≡ c
IsPart (unregisters c) i lowers = Unit
IsPart (broadcasts msg) i (snapshots m cs) = m ≡ msg
IsPart (broadcasts msg) i (sends j) = j ≡ i
IsPart (broadcasts msg) i (drops j) = j ≡ i
IsPart (broadcasts msg) i lowers = Unit
IsPart (receives c) i (receive_event j) = j ≡ c
IsPart _ _ _ = ⊥

-- `s` with broadcast `k` behind the others, on the broker `b`.
abbrev pub casting : System → Broker → Cast → System
casting s b k = record s { broker = b; casts = s.casts ++ k ∷ [] }

abbrev pub cast : Text → List ℕ → List ℕ → Cast
cast msg todo slow = record { msg = msg; todo = todo; slow = slow }

-- A schedule of steps of the call leads from `s` to `t`.
abbrev pub Schedules : Call → ℕ → System → System → Type 0
Schedules op i s t = (es : List Event) × All (IsPart op i) es × (run es s ≡ ok t)

step-sends :
    (msg : Text) (s : System) (c : ℕ) (cs slow : List ℕ) (b : Broker) (r : Broker × Bool)
    → send c msg b ≡ ok r
    → step (sends (length s.casts)) (casting s b (cast msg (c ∷ cs) slow))
      ≡ ok (casting s r.0 (cast msg cs (if r.1 then slow else slow ++ c ∷ [])))
unfolding step
step-sends msg s c cs slow b r e =
    let k = cast msg (c ∷ cs) slow in
    ap (send_of (casting s b k) (length s.casts)) (get_elem?-append_self s.casts k)
    ∙ unfold send_of send_next in
      ap
        (λ o. o >>= λ q. ok (record s {
          broker = q.0;
          casts =
              set (s.casts ++ k ∷ []) (length s.casts)
                (cast msg cs (if q.1 then slow else slow ++ c ∷ []));
        }))
        e
      ∙ ap (λ ks. ok (record s { broker = r.0; casts = ks })) (set-append s.casts k _)

pub sends-Schedules :
    (msg : Text) (s : System) (todo slow slow' : List ℕ) (b b' : Broker)
    → send_all msg todo b slow ≡ ok (b', slow')
    → Schedules
        (broadcasts msg)
        (length s.casts)
        (casting s b (cast msg todo slow))
        (casting s b' (cast msg [] slow'))
unfolding send_all run
sends-Schedules msg s [] slow slow' b b' e = ([], tt, ground (arith, e))
sends-Schedules msg s (c ∷ cs) slow slow' b b' e =
    let (r, sent, rest) = bind-ok (send c msg b) _ (b', slow') e in
    let after = if r.1 then slow else slow ++ c ∷ [] in
    let (es, part, ran) = sends-Schedules msg s cs after slow' r.0 b' rest in
    (
      sends (length s.casts) ∷ es,
      (refl, part),
      run-step _ es _ _ (step-sends msg s c cs slow b r sent) ∙ ran,
    )

step-drops :
    (msg : Text) (s : System) (c : ℕ) (cs : List ℕ) (b : Broker)
    → step (drops (length s.casts)) (casting s b (cast msg [] (c ∷ cs)))
      ≡ leave c (casting s b (cast msg [] cs))
unfolding step
step-drops msg s c cs b =
    ap (drop_of (casting s b (cast msg [] (c ∷ cs))) (length s.casts))
      (get_elem?-append_self s.casts (cast msg [] (c ∷ cs)))
    ∙ unfold drop_of drop_next in
      ap (λ ks. leave c (record s { broker = b; casts = ks }))
        (set-append s.casts (cast msg [] (c ∷ cs)) (cast msg [] cs))

pub step-lowers :
    (t : System)
    → step lowers (record t { leaving = t.leaving + 1 })
      ≡ ok (record t { broker = add_count (negsuc 0) t.broker })
unfolding step
step-lowers t = ground arith

pub leave-detach :
    (t : System) (c : ℕ) (d : Broker)
    → member c t.broker.clients ≡ true
    → detach c t.broker ≡ ok d
    → leave c t ≡ ok (record t { broker = d; leaving = t.leaving + 1 })
unfolding leave
leave-detach t c d m e = rw (m, e) refl

pub leave-none : (t : System) (c : ℕ) → member c t.broker.clients ≡ false → leave c t ≡ ok t
unfolding leave
leave-none t c m = rw m refl

-- A removal of a client is one step on the map and one on the counter, or a step that finds nothing.
pub unregister-parts :
    (c : ℕ) (b b' : Broker)
    → unregister c b ≡ ok b'
    → ((d : Broker) × (member c b.clients ≡ true)
        × (detach c b ≡ ok d)
        × (b' ≡ add_count (negsuc 0) d))
      ⊎ ((member c b.clients ≡ false) × (b' ≡ b))
unfolding unregister
unregister-parts c b b' e = elim (Bool-cases (member c b.clients)) [
  | inl m ↦
      let (d, f, g) = bind-ok (detach c b) (λ d. ok (add_count (negsuc 0) d)) b' (rw m at e) in
      inl (d, m, f, ground (arith, g))
  | inr m ↦ inr (m, ground (arith, e, m))
]

drop-Schedules :
    (msg : Text) (s : System) (c : ℕ) (cs : List ℕ) (b b' : Broker)
    → unregister c b ≡ ok b'
    → Schedules
        (broadcasts msg)
        (length s.casts)
        (casting s b (cast msg [] (c ∷ cs)))
        (casting s b' (cast msg [] cs))
unfolding run
drop-Schedules msg s c cs b b' e =
    let t = casting s b (cast msg [] cs) in
    let first = step-drops msg s c cs b in
    elim (unregister-parts c b b' e) [
      | inl (d, m, f, g) ↦ (
        drops (length s.casts) ∷ lowers ∷ [],
        (refl, (tt, tt)),
        run-step _ (lowers ∷ []) _ _ (first ∙ leave-detach t c d m f)
            ∙ run-step lowers [] _ _ (step-lowers (record t { broker = d }))
            ∙ ap (λ x. ok (casting s x (cast msg [] cs))) (sym g),
      )
      | inr (m, g) ↦ (
        drops (length s.casts) ∷ [],
        (refl, tt),
        run-step _ [] _ _ (first ∙ leave-none t c m)
            ∙ ap (λ x. ok (casting s x (cast msg [] cs))) (sym g),
      )
    ]

run-append : (es fs : List Event) (s t : System) → run es s ≡ ok t → run (es ++ fs) s ≡ run fs t
unfolding run
run-append [] fs s t h = ground (arith, h)
run-append (e ∷ es) fs s t h =
    let (u, f, g) = bind-ok (step e s) (run es) t h in rw f (run-append es fs u t g)

pub Schedules-trans :
    (op : Call) (i : ℕ) (s t u : System)
    → Schedules op i s t
    → Schedules op i t u
    → Schedules op i s u
Schedules-trans op i s t u (es, part, ran) (fs, part', ran') =
    (es ++ fs, All-append (IsPart op i) es fs part part', run-append es fs s t ran ∙ ran')

pub drops-Schedules :
    (msg : Text) (s : System) (slow : List ℕ) (b b' : Broker)
    → drop_all slow b ≡ ok b'
    → Schedules
        (broadcasts msg)
        (length s.casts)
        (casting s b (cast msg [] slow))
        (casting s b' (cast msg [] []))
unfolding drop_all run
drops-Schedules msg s [] b b' e = ([], tt, ground (arith, e))
drops-Schedules msg s (c ∷ cs) b b' e =
    let (d, f, g) = bind-ok (unregister c b) (drop_all cs) b' e in
    Schedules-trans (broadcasts msg) (length s.casts) _ (casting s d (cast msg [] cs)) _
      (drop-Schedules msg s c cs b d f) (drops-Schedules msg s cs d b' g)

pub record_self : (s : System) → record s { casts = s.casts ++ [] } ≡ s
record_self s = ap (λ ks. record s { casts = ks }) (append-nil s.casts)
