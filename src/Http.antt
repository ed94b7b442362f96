-- ===== src/Http.antt =====
-- What the handlers use of `http.ResponseWriter`: the first status that is written counts, and a body
-- without one implies 200.
use process_wrapper.Prelude.{ℕ, [], ◌++◌, Option, none, some, Str}

pub record Response : Type 0 where
  pub status : Option ℕ
  pub body : Str

abbrev pub no_response : Response
no_response = record { status = none; body = [] }

abbrev first_status : Option ℕ → ℕ → Option ℕ
first_status none code = some code
first_status (some old) code = some old

-- `writer.WriteHeader(code)`
unfoldable pub write_header : ℕ → Response → Response
write_header code r = record r { status = first_status r.status code }

-- `writer.Write(data)`
unfoldable pub write : Str → Response → Response
write text r = record { status = first_status r.status 200; body = r.body ++ text }

-- The status that the client sees.
abbrev pub code_of : Option ℕ → ℕ
code_of none = 200
code_of (some code) = code

abbrev pub code : Response → ℕ
code r = code_of r.status
