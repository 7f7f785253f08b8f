-- ===== src/Go/Http.antt =====
-- What the program uses of Go's package net/http: a request, and the response that a handler
-- writes. Headers that are set after the status has gone out have no effect; the first write sends
-- the status 200.
use zfs_nas_dashboard.Prelude.{ℕ, Option, none, some, List, [], ◌++◌}
use Prim.Native.String.{String}
use zfs_nas_dashboard.Go.Strings.{Text, codes}
use zfs_nas_dashboard.Go.Map.{text_keys, insert}

pub record Request : Type 0 where
  pub method : Text
  pub path : Text

pub record Response : Type 0 where
  pub status : Option ℕ
  pub headers : List (Text × Text)
  pub body : Text

abbrev pub empty : Response
empty = record { status = none; headers = []; body = [] }

unfoldable pub header_at : Option ℕ → Text → Text → Response → Response
header_at none key value w = record w { headers = insert key value w.headers }
header_at (some code) key value w = w

-- `w.Header().Set(key, value)`.
unfoldable pub set_header : String → String → Response → Response
unfolding header_at
set_header key value w = header_at w.status (codes key) (codes value) w

abbrev pub or_sent : ℕ → Option ℕ → Option ℕ
or_sent code none = some code
or_sent code (some sent) = some sent

-- `w.WriteHeader(code)`.
unfoldable pub write_header : ℕ → Response → Response
write_header code w = record w { status = or_sent code w.status }

-- A write of the body.
unfoldable pub write : Text → Response → Response
write text w = record w { status = or_sent 200 w.status; body = w.body ++ text }

-- `http.Error(w, message, code)`.
unfoldable pub http_error : String → ℕ → Response → Response
http_error message code w = write (codes message ++ codes "\n") (
    write_header code (
      set_header "X-Content-Type-Options" "nosniff"
        (set_header "Content-Type" "text/plain; charset=utf-8" w)))
