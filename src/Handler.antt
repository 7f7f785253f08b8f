-- ===== src/Handler.antt =====
-- internal/handler/handler.go: the HTTP API.
--
-- A handler goes from the server's state, which is the poller with the data behind it, and the
-- response so far to those after it. The encoding of JSON, the embedded files and the running of
-- commands are arguments. `ServeMux` is modelled on paths that it does not redirect.
pub mod Events
pub mod Router
pub mod Headers
pub mod Guarded
pub mod Serves
mod Tests
use zfs_nas_dashboard.Prelude.{
  ℕ, zero, suc, ◌+◌, ◌-◌, ◌*◌, ◌/◌, ◌%◌, ◌^◌, ◌≤◌, ◌<◌, ◌≡◌, refl, sym, ap, subst, ◌∙◌, ◌≢◌, ◌↔◌,
  ◌⊎◌, inl, inr, Bool, true, false, not, ◌&&◌, ◌||◌, Option, none, some, List, [], ◌∷◌, ◌++◌, map,
  reverse, arith, dec_lt, ℕ_discrete, ltb, leb, ◌==◌, if◌then◌else◌, ==_iff, Bool-cases,
  Option-cases, length, get_elem?, get_elem?-lt, length-append, set, take, drop, In, In-append,
  either, both, All, ℤ, pos, negsuc, ◌+ℤ◌, ◌*ℤ◌, ◌≤ℤ◌, ◌<ℤ◌, ltb_ℤ, leb_ℤ, eqb_ℤ, eqb_ℤ_iff,
  pos_part, neg_part, IsInt64, wrap64, sub_ℕ,
}
use zfs_nas_dashboard.Prelude.Result.{Result, ok, err}
use zfs_nas_dashboard.Go.Strings.{Text, codes, text_eq}
use zfs_nas_dashboard.Go.Http.{Request, Response, set_header, write, http_error}
use zfs_nas_dashboard.Go.Time.{Duration}
use zfs_nas_dashboard.Broker
use zfs_nas_dashboard.Broker.{Outcome}
use zfs_nas_dashboard.Config.{Config}
use zfs_nas_dashboard.Collector.Smart.{DiskInfo}
use zfs_nas_dashboard.Collector.Runner.{Error, CommandRunner}
use zfs_nas_dashboard.Collector.Zfs.Arc.{Float64}
use zfs_nas_dashboard.Collector.Zfs.{ZfsResult, zfs}
use zfs_nas_dashboard.Store.Rows.{TempRow, Sql, get_since}
use zfs_nas_dashboard.Poller.{Poller, latest_smart, latest_files, history_length}

-- A handler on the state `S`.
abbrev pub Handler : Type 0 → Type 0
Handler S = Request → S → Response → Outcome (S × Response)

-- `securityHeaders`.
unfoldable pub security_headers : {S : Type 0} → Handler S → Handler S
security_headers serve r s w = serve r s (
    set_header "Content-Security-Policy"
      "default-src 'none'; script-src 'self'; style-src 'self' 'unsafe-inline'; img-src 'self' data:; connect-src 'self'; frame-ancestors 'none'"
      (set_header "Referrer-Policy" "no-referrer"
        (set_header "X-Content-Type-Options" "nosniff" (set_header "X-Frame-Options" "DENY" w))))

abbrev pub not_allowed : Response → Response
not_allowed w = http_error "method not allowed" 405 w

-- `onlyGET`.
unfoldable pub only_get : {S : Type 0} → Handler S → Handler S
only_get serve r s w =
    if text_eq r.method (codes "GET") then serve r s w else Broker.ok (s, not_allowed w)

write_encoded : Result Text Text → Response → Response
write_encoded (ok text) w = write text w
write_encoded (err e) w = w

-- `writeJSON`, on what the encoder says; nothing is written when it fails.
unfoldable pub write_json : Result Text Text → Response → Response
unfolding write_encoded
write_json encoded w = write_encoded encoded (set_header "Content-Type" "application/json" w)

-- The payload of /api/hardware, and with its type that of the first event.
pub record Hardware (C : Type 0) : Type 0 where
  pub disks : List DiskInfo
  pub history : List (TempRow C)
  pub poll_interval_s : ℤ
  pub temp_history_hours : ℤ

-- json.Encode of each payload, with its line end, json.Marshal of the first event, and
-- int(d.Seconds()), which goes through a float.
pub record Outside (C F Z : Type 0) : Type 0 where
  pub encode_hardware : Hardware C → Result Text Text
  pub encode_zfs : Z → Result Text Text
  pub encode_files : F → Result Text Text
  pub marshal_init : Hardware C → Result Text Text
  pub int_seconds : Duration → ℤ

-- A history that came with an error is dropped.
unfoldable pub history_or_nil : {C E : Type 0} → List (TempRow C) × Option E → List (TempRow C)
history_or_nil (rows, none) = rows
history_or_nil (rows, some e) = []

module _ {C F D E : Type 0} (fl : Float64) (out : Outside C F (ZfsResult fl.F)) (sql : Sql D C E)
    (cfg : Config) where
  unfoldable pub hardware_of : Poller D F → List (TempRow C) → Hardware C
  hardware_of p history = record {
    disks = latest_smart p;
    history = history;
    poll_interval_s = out.int_seconds cfg.smart_poll_interval;
    temp_history_hours = cfg.temp_history_hours;
  }

  -- `handleHardware`.
  unfoldable pub handle_hardware : Handler (Poller D F)
  handle_hardware r p w =
      let history = history_or_nil (get_since sql (history_length cfg) p.store) in
      Broker.ok (p, write_json (out.encode_hardware (hardware_of p history)) w)

  zfs_response : Result Error (ZfsResult fl.F) → Response → Response
  zfs_response (err e) w = http_error "zfs collection failed" 500 w
  zfs_response (ok result) w = write_json (out.encode_zfs result) w

  -- `handleZFS`, on what the commands print and arcstats holds at this request.
  unfoldable pub handle_zfs : CommandRunner → Result Error Text → Handler (Poller D F)
  unfolding zfs_response
  handle_zfs run arcstats r p w = Broker.ok (p, zfs_response (zfs fl cfg run arcstats) w)

  files_response : Option F → Response → Response
  files_response none w = http_error "data not yet available" 503 w
  files_response (some result) w = write_json (out.encode_files result) w

  -- `handleFiles`.
  unfoldable pub handle_files : Handler (Poller D F)
  unfolding files_response
  handle_files r p w = Broker.ok (p, files_response (latest_files p) w)
