-- ===== src/Pilot/Payload.antt =====
-- The payloads that the pilot validates: decoded JSON objects, and the event of version 1 that
-- `Store.apply` accepts (recserve_pilot/store.py).
use Prim.Native.Char.{code}
use Prim.Native.String.{[] as nil, ◌∷◌ as cons}
use recserve.Prelude.{
  ℕ, String, Bool, true, false, List, [], ◌∷◌, ◌&&◌, not, any, all, length, leb, ltb, same,
  if◌then◌else◌,
}
use recserve.Prelude.Int.{ℤ, pos, eq_ℤ}
use recserve.Exec.{Result, ok, err}

-- What a decoded field can be. `other` stands for floats, arrays and objects, which every check
-- of a field refuses.
pub data Value : Type 0 where
  null other : Value
  boolean : Bool → Value
  int : ℤ → Value
  text : String → Value

-- A decoded body: the fields of an object, each key once, or something that is no dict.
pub data Payload : Type 0 where
  object : List (String × Value) → Payload
  not_object : Payload

-- The exceptions of the pilot. `integrity` is a `sqlite3.IntegrityError` that is not caught, and
-- `crashed` the end of the process in a crash hook.
pub data Error : Type 0 where
  invalid conflict : String → Error
  changed integrity crashed : Error

abbrev pub Checked : Type 0 → Type 0
Checked A = Result Error A

infixl 5 ◌>>=◌ ◌>>◌
abbrev pub ◌>>=◌ : {A B : Type 0} → Checked A → (A → Checked B) → Checked B
ok a >>= f = f a
err e >>= f = err e

abbrev pub ◌>>◌ : {B : Type 0} → Checked (Unit {0}) → Checked B → Checked B
m >> k = m >>= λ _. k

abbrev pub require : Bool → Error → Checked (Unit {0})
require b e = if b then ok tt else err e

-- The code points of a text.
abbrev pub codes : String → List ℕ
codes nil = []
codes (cons c s) = code c ∷ codes s

abbrev bad_identifier : Error
bad_identifier = invalid "IDs must be nonempty strings of at most 128 non-whitespace characters"

unfoldable pub is_identifier : String → Bool
is_identifier s =
    let n = length (codes s) in leb 1 n && leb n 128 && not (any (λ c. ltb c 33) (codes s))

unfoldable pub identifier : Value → Checked String
unfolding is_identifier
identifier (text s) = if is_identifier s then ok s else err bad_identifier
identifier _ = err bad_identifier

-- `payload[key]`
unfoldable pub field : String → List (String × Value) → Value
field key [] = null
field key ((k, v) ∷ rest) = if same k key then v else field key rest

-- `set(payload) == keys`
unfoldable pub has_keys : List String → List (String × Value) → Bool
has_keys keys fields =
    all (λ f. any (same f.0) keys) fields && all (λ k. any (λ f. same f.0 k) fields) keys

pub data Kind : Type 0 where
  shown save dismiss watched : Kind

abbrev pub kind_eq : Kind → Kind → Bool
kind_eq shown shown = true
kind_eq save save = true
kind_eq dismiss dismiss = true
kind_eq watched watched = true
kind_eq _ _ = false

abbrev pub is_shown : Kind → Bool
is_shown k = kind_eq k shown

unfoldable pub kind_of : Value → Checked Kind
kind_of (text s) =
    if same s "shown"
    then ok shown
    else if same s "save"
    then ok save
    else if same s "dismiss"
    then ok dismiss
    else if same s "watched"
    then ok watched
    else err (invalid "unsupported feedback kind")
kind_of _ = err (invalid "unsupported feedback kind")

pub record Event : Type 0 where
  pub event_id : String
  pub event_time_ms : ℤ
  pub user_id : String
  pub item_id : String
  pub kind : Kind
  pub request_id : String

-- Equality of the canonical JSON texts of two events, which have the same keys and version.
unfoldable pub same_payload : Event → Event → Bool
same_payload a b =
    same a.event_id b.event_id
    && eq_ℤ a.event_time_ms b.event_time_ms
    && same a.user_id b.user_id
    && same a.item_id b.item_id
    && kind_eq a.kind b.kind
    && same a.request_id b.request_id

unfoldable pub version_of : Value → Checked (Unit {0})
version_of (int v) = require (eq_ℤ v (pos 1)) (invalid "unsupported event schema")
version_of _ = err (invalid "unsupported event schema")

unfoldable pub time_of : Value → Checked ℤ
time_of (int t) = ok t
time_of _ = err (invalid "event time must be epoch milliseconds")

abbrev pub event_keys : List String
event_keys =
    "schema_version" ∷ "event_id" ∷ "event_time_ms" ∷ "user_id" ∷ "item_id" ∷ "kind" ∷ "request_id"
    ∷ []

-- The checks of `Store.apply` before it opens the database, in their order.
unfoldable pub parse_event : Payload → Checked Event
unfolding has_keys field identifier kind_of version_of time_of
parse_event not_object = err (invalid "event schema fields do not match version 1")
parse_event (object fields) = do
  require (has_keys event_keys fields) (invalid "event schema fields do not match version 1")
  version_of (field "schema_version" fields)
  event_id ← identifier (field "event_id" fields)
  user_id ← identifier (field "user_id" fields)
  item_id ← identifier (field "item_id" fields)
  request_id ← identifier (field "request_id" fields)
  kind ← kind_of (field "kind" fields)
  event_time_ms ← time_of (field "event_time_ms" fields)
  ok (record {
    event_id = event_id;
    event_time_ms = event_time_ms;
    user_id = user_id;
    item_id = item_id;
    kind = kind;
    request_id = request_id;
  })
