-- ===== src/Handler/Headers.antt =====
-- internal/handler/handler.go: the security headers are on every response.
use zfs_nas_dashboard.Prelude.{
  ℕ, ◌≡◌, refl, Bool, true, not, ◌&&◌, ◌||◌, Option, none, some, List, [], ◌∷◌, arith,
}
use Prim.Native.String.{String}
use zfs_nas_dashboard.Go.Strings.{Text, codes, text_eq}
use zfs_nas_dashboard.Go.Strings.Laws.{text_eq_iff}
use zfs_nas_dashboard.Go.Map.{text_keys, lookup, insert, lookup-insert}
use zfs_nas_dashboard.Go.Http.{Response, set_header, header_at, write_header, write, http_error}

abbrev pub security : List (Text × Text)
security =
    (codes "X-Frame-Options", codes "DENY")
    ∷ (codes "X-Content-Type-Options", codes "nosniff")
    ∷ (codes "Referrer-Policy", codes "no-referrer")
    ∷ (
      codes "Content-Security-Policy",
      codes
          "default-src 'none'; script-src 'self'; style-src 'self' 'unsafe-inline'; img-src 'self' data:; connect-src 'self'; frame-ancestors 'none'",
    )
    ∷ []

abbrev pub HasHeaders : List (Text × Text) → List (Text × Text) → Type 0
HasHeaders [] headers = Unit
HasHeaders ((key, value) ∷ rest) headers =
    (lookup key headers ≡ some value) × HasHeaders rest headers

-- A header that is none of these, or one with the same value.
abbrev pub spares : List (Text × Text) → Text → Text → Bool
spares [] key value = true
spares ((k, v) ∷ rest) key value = (not (text_eq key k) || text_eq value v) && spares rest key value

insert-HasHeaders :
    (wanted : List (Text × Text)) (key value : Text) (headers : List (Text × Text))
    → spares wanted key value ≡ true
    → HasHeaders wanted headers
    → HasHeaders wanted (insert key value headers)
insert-HasHeaders [] key value headers s h = tt
insert-HasHeaders ((k, v) ∷ rest) key value headers s (e, h) = (
  ground (arith, lookup-insert key k value headers, text_eq_iff value v),
  insert-HasHeaders rest key value headers (ground arith) h,
)

abbrev pub Guarded : Response → Type 0
Guarded w = HasHeaders security w.headers

header_at-Guarded :
    (status : Option ℕ) (key value : Text) (w : Response)
    → spares security key value ≡ true
    → Guarded w
    → Guarded (header_at status key value w)
unfolding header_at
header_at-Guarded none key value w s g = insert-HasHeaders security key value w.headers s g
header_at-Guarded (some code) key value w s g = g

pub set_header-Guarded :
    (key value : String) (w : Response)
    → spares security (codes key) (codes value) ≡ true
    → Guarded w
    → Guarded (set_header key value w)
unfolding set_header
set_header-Guarded key value w s g = header_at-Guarded w.status (codes key) (codes value) w s g

pub write-Guarded : (text : Text) (w : Response) → Guarded w → Guarded (write text w)
unfolding write
write-Guarded text w g = g

pub http_error-Guarded :
    (message : String) (code : ℕ) (w : Response) → Guarded w → Guarded (http_error message code w)
unfolding http_error write write_header text_eq
http_error-Guarded message code w g =
    set_header-Guarded "X-Content-Type-Options" "nosniff" _ refl
      (set_header-Guarded "Content-Type" "text/plain; charset=utf-8" w refl g)
