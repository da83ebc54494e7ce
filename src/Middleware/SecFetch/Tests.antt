-- ===== src/Middleware/SecFetch/Tests.antt =====
-- Requests that the check passes and blocks, and its theorems at concrete requests.
use cartridge.Prelude.{
  ◌≡◌, refl, String, true, none, some, [], ◌==◌, string_comparable, if◌then◌else◌,
}
use cartridge.Middleware.Chain.{Request, next}
use cartridge.Middleware.SecFetch.{
  default_allowed_values, default_methods, settings, sec_fetch_site_middleware,
}

program : Unit {0}
unfolding settings sec_fetch_site_middleware default_allowed_values default_methods
program = tt

abbrev from : String → String → Request
from site method = record {
  method = method;
  header = λ h. if h == "Sec-Fetch-Site" then site else "";
  accepts_json = true;
}

-- Also the OPTIONS request of a preflight passes.
preflight : sec_fetch_site_middleware none (from "cross-site" "OPTIONS") ≡ next
unfolding program
preflight = refl

-- An empty list of methods is not nil: nothing is checked.
no_methods :
    sec_fetch_site_middleware
      (some record { allowed_values = none; methods = some []; skip = none })
      (from "" "POST")
    ≡ next
unfolding program
no_methods = refl
