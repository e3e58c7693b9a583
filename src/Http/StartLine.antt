-- ===== src/Http/StartLine.antt =====
-- The start line that `to_string` of a request printed, read back.
use asabru_commons.Base.{ℕ, ◌≡◌, refl, [], ◌∷◌, ◌++◌, Bytes, codes, Lacks, true, false, ok, arith}
use asabru_commons.Strings.{Stream, open_stream, is_space, is_good}
use asabru_commons.Strings.Lines.{IsWord, extract-append, extract_last, extract_space}
use asabru_commons.Http.Uri.{uri}
use asabru_commons.Http.Method
use asabru_commons.Http.Method.{HttpMethod, get, string_to_method-to_string}
use asabru_commons.Http.Version
use asabru_commons.Http.Version.{is_1_1}
use asabru_commons.Http.Request.{new_request, start_request, read_start_line}

-- The start line of a printed request.
abbrev pub start_text : HttpMethod → Bytes → Bytes
start_text m path = Method.to_string m ++ b' ' ∷ (path ++ b' ' ∷ codes "HTTP/1.1")

pub IsWord-no_cr : (w : Bytes) → IsWord w → Lacks b'\r' w
unfolding is_space
IsWord-no_cr [] h = tt
IsWord-no_cr (c ∷ w) h = (ground arith, IsWord-no_cr w h.1)

pub method-IsWord : (m : HttpMethod) → IsWord (Method.to_string m)
unfolding Method.to_string is_space
method-IsWord get = (refl, (refl, (refl, tt)))
method-IsWord _ = ground arith

method-cons : (m : HttpMethod) → (c : ℕ) × (w : Bytes) × (Method.to_string m ≡ c ∷ w)
unfolding Method.to_string
method-cons get = (_, _, refl)
method-cons _ = (_, _, refl)

abbrev at_end : Stream
at_end = record { rest = []; eof = true; fail = false }

read_words :
    (d c e : ℕ) (w path v : Bytes)
    → IsWord (d ∷ w)
    → IsWord (c ∷ path)
    → IsWord (e ∷ v)
    → read_start_line ((d ∷ w) ++ b' ' ∷ ((c ∷ path) ++ b' ' ∷ (e ∷ v)))
      ≡ (d ∷ w, c ∷ path, e ∷ v, at_end)
unfolding read_start_line open_stream
read_words d c e w path v hw hp hv = rw (
  extract-append d w (((c ∷ path) ++ b' ' ∷ (e ∷ v))) [] hw,
  extract_space,
  extract-append c path (e ∷ v) [] hp,
  extract_space,
  extract_last e v [] hv,
)

read_start_text :
    (m : HttpMethod) (c : ℕ) (path : Bytes)
    → IsWord (c ∷ path)
    → read_start_line (start_text m (c ∷ path))
      ≡ (Method.to_string m, c ∷ path, codes "HTTP/1.1", at_end)
read_start_text m c path h =
    let (d, w, e) = method-cons m in
    rw e (
      read_words d c b'H' w path (codes "TTP/1.1") (rw e at (method-IsWord m)) h
        (unfold is_space in ground arith))

pub start_request-text :
    (m : HttpMethod) (c : ℕ) (path : Bytes)
    → IsWord (c ∷ path)
    → start_request (start_text m (c ∷ path))
      ≡ ok (record new_request { method = m; request_uri = uri (c ∷ path) })
unfolding start_request
start_request-text m c path h =
    rw (read_start_text m c path h, string_to_method-to_string m)
      (unfold is_good is_1_1 Version.string_to_version in refl)
