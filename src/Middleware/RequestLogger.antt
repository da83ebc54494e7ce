-- ===== src/Middleware/RequestLogger.antt =====
-- middleware/request_logger.go: a handler that calls the next ones and then writes an entry.
use cartridge.Prelude.{ℕ, String, Option, List, [], ◌∷◌, has_prefix, if◌then◌else◌}
use cartridge.Prelude.Int.{ℤ}

-- The value of a panic: an error, or any other value, by what `%v` prints of it.
pub data Panic (E : Type 0) : Type 0 where
  panic_error : E → Panic E
  panic_value : String → Panic E

-- What a call of c.Next gives: the error that it returns and the response's status at that time,
-- or a panic in place of the return.
pub data Next (E : Type 0) : Type 0 where
  returns : Option E → ℕ → Next E
  panics : Panic E → ℕ → Next E

-- What the middleware reads of a request, and the time that c.Next took.
pub record Exchange : Type 0 where
  pub method : String
  pub path : String
  pub ip : String
  pub duration : ℤ

pub record RequestEntry : Type 0 where
  pub method : String
  pub path : String
  pub status : ℕ
  pub duration : ℤ
  pub ip : String

-- The entry, unless the path is that of a health check.
unfoldable pub entries_of : Exchange → ℕ → List RequestEntry
entries_of x status =
    if has_prefix x.path "/_health"
    then []
    else record {
      method = x.method;
      path = x.path;
      status = status;
      duration = x.duration;
      ip = x.ip;
    }
      ∷ []

-- What the handler gives in its turn, and what it logs. A panic runs through it.
unfoldable pub request_logger : {E : Type 0} → Exchange → Next E → Next E × List RequestEntry
unfolding entries_of
request_logger x (returns err status) = (returns err status, entries_of x status)
request_logger x (panics m status) = (panics m status, [])
