-- ===== src/Go.antt =====
-- What the program uses of Go's standard library: `strings` (Go/Strings), `strconv`
-- (Go/Strconv) and maps keyed by strings (Go/Map).
pub mod Strings
pub mod Strconv
pub mod Map
pub mod Time
pub mod Http
