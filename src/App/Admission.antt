-- ===== src/App/Admission.antt =====
-- The bound on requests and bodies before a route sees them: `class Bounds` of recserve_app/api.py.
pub mod Whole
use text.Mathlib.Text.{starts_with}
use recserve.Prelude.{
  ℕ, suc, ◌-◌, ◌+◌, ◌≤◌, ◌≡◌, refl, String, Bool, true, false, ◌||◌, Option, none, some, List, [],
  ◌∷◌, ◌++◌, length, leb, ltb, if◌then◌else◌, arith, Bool-cases, inl, inr, subst,
}

-- What `receive` gives within the deadline: a part of the body, the end of the connection, or nothing
-- before the time has run out.
pub data Message : Type 0 where
  part : List ℕ → Bool → Message
  disconnect late : Message

pub data Admission : Type 0 where
  busy timed_out gone too_large : Admission
  admitted : List ℕ → Admission

abbrev pub body_limit : ℕ
body_limit = 32768

-- the loop that reads the whole body
unfoldable pub read_body : List ℕ → List Message → Admission
read_body body [] = timed_out
read_body body (late ∷ messages) = timed_out
read_body body (disconnect ∷ messages) = gone
read_body body (part bytes more ∷ messages) =
    let rest = read_body (body ++ bytes) messages in
    if ltb body_limit (length (body ++ bytes))
    then too_large
    else if more
    then rest
    else admitted (body ++ bytes)

-- `__call__` up to the call of the application, with the number of active requests while it runs
unfoldable pub admit : ℕ → List Message → Admission × ℕ
admit active messages =
    if leb 64 active then (busy, active) else (read_body [] messages, suc active)

-- the status of an answer that Bounds gives itself
unfoldable pub status_of : Admission → Option ℕ
status_of busy = some 503
status_of timed_out = some 408
status_of gone = none
status_of too_large = some 413
status_of (admitted body) = none

-- the end of a request
unfoldable pub leave : Admission → ℕ → ℕ
leave busy active = active
leave _ active = active - 1

-- the headers that `secure_send` adds
unfoldable pub security_headers : String → List (String × String)
security_headers path =
    ("cache-control", "no-store")
    ∷ ("x-content-type-options", "nosniff")
    ∷ ("referrer-policy", "no-referrer")
    ∷ ("x-frame-options", "DENY")
    ∷ (
      "content-security-policy",
      if starts_with path "/api/" || starts_with path "/auth/"
          then "default-src 'none'; frame-ancestors 'none'"
          else "default-src 'self'; script-src 'self'; style-src 'self'; connect-src 'self'; img-src 'self' data:; object-src 'none'; base-uri 'self'; frame-ancestors 'none'",
    )
    ∷ ("strict-transport-security", "max-age=31536000")
    ∷ []

-- the parts of a body in their order, up to the last one
abbrev pub parts : List Message → List ℕ
parts [] = []
parts (part bytes true ∷ messages) = bytes ++ parts messages
parts (part bytes false ∷ messages) = bytes
parts (disconnect ∷ messages) = []
parts (late ∷ messages) = []
