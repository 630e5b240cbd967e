-- ===== src/Platform.antt =====
-- What the program takes from Python's standard library and does not define: the digest, the ISO
-- 8601 reader and writer of `datetime`, and the JSON writer. Each theorem holds for every choice.
use vouchspec.Base.{ℕ, String, Option, none, some, eqb, if◌then◌else◌}
use vouchspec.Errors.{Error, Result, ok, err}
use vouchspec.Json.{Json}
use Prim.Native.Char.{code}

-- A `datetime`: without a timezone, or an instant in microseconds.
pub data Moment : Type 0 where
  naive : Moment
  utc : ℕ → Moment

pub record Platform : Type 0 where
  -- `hashlib.sha256(text.encode("utf-8")).hexdigest()`
  pub sha256 : String → String
  -- `datetime.fromisoformat`; `none` is its `ValueError`
  pub from_isoformat : String → Option Moment
  -- `replace(microsecond=0).isoformat()` in UTC, with `Z`
  pub isoformat : ℕ → String
  -- `json.dumps(value, sort_keys=True, separators=(",", ":"))`
  pub dumps : Json → String

-- `value[:-1] + "+00:00" if value.endswith("Z") else value`
unfoldable pub without_zulu : String → String
without_zulu String.[] = String.[]
without_zulu (String.◌∷◌ c String.[]) =
    if eqb (code c) b'Z' then "+00:00" else String.◌∷◌ c String.[]
without_zulu (String.◌∷◌ c (String.◌∷◌ d s)) = String.◌∷◌ c (without_zulu (String.◌∷◌ d s))

-- The body of each `_parse_timestamp`, which differ in the code that they raise.
unfoldable pub parse_timestamp : Platform → Error → String → Result ℕ
parse_timestamp p e s = elim (p.from_isoformat (without_zulu s)) [
  | none ↦ err e
  | some m ↦ elim m [ naive ↦ err e | utc t ↦ ok t ]
]

-- `value.tzinfo is None: raise`, and the instant otherwise.
abbrev pub aware : Error → Moment → Result ℕ
aware e naive = err e
aware e (utc t) = ok t
