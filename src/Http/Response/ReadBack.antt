-- ===== src/Http/Response/ReadBack.antt =====
-- `string_to_response` on what `to_string` printed.
use asabru_commons.Base.Int.{pos}
use asabru_commons.Base.{ℕ, ◌≡◌, [], ◌∷◌, ◌++◌, append_assoc, Bytes, true}
use asabru_commons.Strings.Decimal.{decimal}
use asabru_commons.Http.Status
use asabru_commons.Http.Version
use asabru_commons.Http.Message.{print_headers}
use asabru_commons.Http.Response.{HttpResponse, to_string, print_int}

-- What stands behind the status code.
abbrev behind_code : ℕ → Bytes → Bytes
behind_code n s = b' ' ∷ ((Status.to_string (pos n) ++ b'\r' ∷ []) ++ b'\n' ∷ s)

printed :
    (r : HttpResponse) (n : ℕ)
    → r.status_code ≡ pos n
    → to_string r true
      ≡ Version.to_string r.message.version
        ++ b' '
          ∷ (decimal n
              ++ behind_code n
                  (print_headers r.message.headers ++ b'\r' ∷ b'\n' ∷ r.message.content))
unfolding to_string print_int
printed r n e = rw e (simp append_assoc)
