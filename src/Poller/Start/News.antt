-- ===== src/Poller/Start/News.antt =====
-- What a step of the running poller tells the clients, and what it leaves in the caches.
use zfs_nas_dashboard.Prelude.{Option, none, some, List, [], ◌∷◌}
use zfs_nas_dashboard.Prelude.Result.{Result, ok, err}
use zfs_nas_dashboard.Go.Strings.{Text, codes}
use zfs_nas_dashboard.Broker.Calls.{Call, broadcasts}
use zfs_nas_dashboard.Collector.Smart.{DiskInfo}
use zfs_nas_dashboard.Poller.Start.{
  Phase, starting, looping, stopped, Phases, Event, smart_goes, files_goes, zfs_goes, smart_ends,
  files_ends, zfs_ends, cancels, calls,
}

-- The broadcast of a message, if there is one.
abbrev pub told : Option Text → List Call
told none = []
told (some msg) = broadcasts msg ∷ []

-- What a successful collection announces; a failed one announces nothing.
abbrev pub news : {E A : Type 0} → (A → Option Text) → Result E A → List Call
news announce (ok a) = told (announce a)
news announce (err e) = []

abbrev pub files_message : Text
files_message = codes "{\"type\":\"files\"}"

abbrev pub zfs_message : Text
zfs_message = codes "{\"type\":\"zfs\"}"

abbrev pub unless_stopped : {A : Type 0} → Phase → List A → List A
unless_stopped starting xs = xs
unless_stopped looping xs = xs
unless_stopped stopped xs = []

abbrev pub if_looping : {A : Type 0} → Phase → List A → List A
if_looping starting xs = []
if_looping looping xs = xs
if_looping stopped xs = []

-- The calls of the broker that a step makes.
abbrev pub calls_of :
    {F E : Type 0} → (List DiskInfo → Option Text) → Event F E → Phases → List Call
calls_of encode (smart_goes r) ph = unless_stopped ph.smart (news encode r)
calls_of encode (files_goes r) ph = unless_stopped ph.files (news (λ f. some files_message) r)
calls_of encode zfs_goes ph = if_looping ph.zfs (broadcasts zfs_message ∷ [])
calls_of encode (calls op) ph = op ∷ []
calls_of encode smart_ends ph = []
calls_of encode files_ends ph = []
calls_of encode zfs_ends ph = []
calls_of encode cancels ph = []

-- What a cache holds after a collection.
abbrev pub newer : {E A B : Type 0} → (A → B) → Result E A → B → B
newer f (ok a) old = f a
newer f (err e) old = old

abbrev pub if_runs : {A : Type 0} → Phase → A → A → A
if_runs starting a old = a
if_runs looping a old = a
if_runs stopped a old = old

abbrev pub smart_after : {F E : Type 0} → Event F E → Phases → List DiskInfo → List DiskInfo
smart_after (smart_goes r) ph old = if_runs ph.smart (newer (λ ds. ds) r old) old
smart_after _ ph old = old

abbrev pub files_after : {F E : Type 0} → Event F E → Phases → Option F → Option F
files_after (files_goes r) ph old = if_runs ph.files (newer some r old) old
files_after _ ph old = old
