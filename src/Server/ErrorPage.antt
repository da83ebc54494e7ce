-- ===== src/Server/ErrorPage.antt =====
-- errors.go, errorHTML: the text of the error page, and what it shows of an error.
use Prim.Native.String as Str
use cartridge.Prelude.{
  ℕ, ◌-◌, ◌≡◌, ◌≢◌, refl, ap, sym, ◌∙◌, String, true, false, Option, none, some, List, [], ◌∷◌,
  ◌==◌, string_comparable, if◌then◌else◌, append, concat, join, nth_char, Bool-cases, inl, inr,
}
use cartridge.Strconv.{format_uint}
use cartridge.Middleware.Chain.{Request, Response, json, page, text}
use cartridge.Server.Errors.{
  HandlerError, status_of, message_of, error_code_name, default_error_handler,
}

-- fmt's %d of a natural number.
abbrev digits : List ℕ → String
digits [] = ""
digits (c ∷ cs) = Str.◌∷◌ (nth_char (c - 48) "0123456789" "0") (digits cs)

unfoldable pub decimal : ℕ → String
decimal n = digits (format_uint n)

unfoldable pub before_title : String
before_title = join "\n" (
    "<!DOCTYPE html>" ∷ "<html lang=\"en\">" ∷ "<head>" ∷ "    <meta charset=\"UTF-8\">"
    ∷ "    <meta name=\"viewport\" content=\"width=device-width, initial-scale=1.0\">"
    ∷ "    <title>" ∷ [])

unfoldable pub before_heading : String
before_heading = join "\n" (
    "</title>" ∷ "    <style>" ∷ "        body {"
    ∷ "            font-family: -apple-system, BlinkMacSystemFont, \"Segoe UI\", Roboto, sans-serif;"
    ∷ "            display: flex;" ∷ "            justify-content: center;"
    ∷ "            align-items: center;" ∷ "            min-height: 100vh;"
    ∷ "            margin: 0;" ∷ "            background: #f8f9fa;" ∷ "            color: #333;"
    ∷ "        }" ∷ "        .container {" ∷ "            text-align: center;"
    ∷ "            padding: 40px;" ∷ "            max-width: 500px;" ∷ "        }" ∷ "        h1 {"
    ∷ "            font-size: 72px;" ∷ "            margin: 0;" ∷ "            color: #dc3545;"
    ∷ "        }" ∷ "        h2 {" ∷ "            font-size: 24px;"
    ∷ "            margin: 10px 0 20px;" ∷ "            color: #666;" ∷ "        }" ∷ "        a {"
    ∷ "            color: #007bff;" ∷ "            text-decoration: none;" ∷ "        }"
    ∷ "        a:hover {" ∷ "            text-decoration: underline;" ∷ "        }" ∷ "    </style>"
    ∷ "</head>" ∷ "<body>" ∷ "    <div class=\"container\">" ∷ "        <h1>" ∷ [])

unfoldable pub before_details : String
before_details =
    join "\n" ("</h2>" ∷ "        <p><a href=\"/\">← Go back home</a></p>" ∷ "        " ∷ [])

unfoldable pub page_end : String
page_end = join "\n" ("" ∷ "    </div>" ∷ "</body>" ∷ "</html>" ∷ [])

unfoldable pub details_start : String
details_start =
    "<p style=\"color:#666;font-size:14px;margin-top:20px;font-family:monospace;background:#f5f5f5;padding:10px;border-radius:4px;\">"

unfoldable pub page_start : ℕ → String → String
page_start code title = concat (
    before_title
    ∷ decimal code
    ∷ " - "
    ∷ title
    ∷ before_heading
    ∷ decimal code
    ∷ "</h1>\n        <h2>"
    ∷ title
    ∷ before_details
    ∷ [])

unfoldable pub details_of : String → String
details_of message = if message == "" then "" else append details_start (append message "</p>")

unfoldable pub error_html : ℕ → String → String → String
unfolding details_of
error_html code title message =
    append (page_start code title) (append (details_of message) page_end)

-- The page that an answer sends.
unfoldable pub page_text : Response → Option String
unfolding error_html
page_text (page code title message) = some (error_html code title message)
page_text (json code error message) = none
page_text (text code message) = none

append_assoc : (s t u : String) → append (append s t) u ≡ append s (append t u)
append_assoc Str.[] t u = refl
append_assoc (Str.◌∷◌ c s) t u = ap (Str.◌∷◌ c) (append_assoc s t u)

around_details :
    (p e m q z : String)
    → append p (append (append e (append m q)) z) ≡ append (append p e) (append m (append q z))
around_details p e m q z =
    ap (append p) (append_assoc e (append m q) z ∙ ap (append e) (append_assoc m q z))
    ∙ sym (append_assoc p e (append m (append q z)))

error_html_details :
    (code : ℕ) (title message : String)
    → message ≢ ""
    → error_html code title message
      ≡ append
          (append (page_start code title) details_start)
          (append message (append "</p>" page_end))
unfolding error_html
error_html_details code title message n = elim (Bool-cases (message == "")) [
  | inl e ↦ absurd (n ((string_comparable.equal_iff message "").0 e))
  | inr e ↦ rw e (around_details (page_start code title) details_start message "</p>" page_end)
]

default_error_handler_hides :
    (r : Request) (e e' : HandlerError)
    → r.accepts_json ≡ false
    → status_of e ≡ status_of e'
    → default_error_handler false r e ≡ default_error_handler false r e'
unfolding default_error_handler
default_error_handler_hides r e e' h s = rw h (ap (λ code. page code (error_code_name code) "") s)

-- To a request for a page, the handler of errors.go answers outside of development with the same
-- page for any two errors of one status, whatever their texts. In development the error's text
-- stands in the page as it is, with no character of it escaped.
pub default_error_handler_page :
    (r : Request) (e e' : HandlerError)
    → r.accepts_json ≡ false
    → status_of e ≡ status_of e'
    → message_of e ≢ ""
    → (default_error_handler false r e ≡ default_error_handler false r e')
      × (page_text (default_error_handler true r e)
          ≡ some (
              append
                (append (page_start (status_of e) (error_code_name (status_of e))) details_start)
                (append (message_of e) (append "</p>" page_end))))
unfolding page_text default_error_handler
default_error_handler_page r e e' h s n = (
  default_error_handler_hides r e e' h s,
  rw h
      (ap some (error_html_details (status_of e) (error_code_name (status_of e)) (message_of e) n)),
)
