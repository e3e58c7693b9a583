-- ===== src/Http/RoundTrip.antt =====
-- `string_to_request` on what `to_string` printed.
use asabru_commons.Base.{
  ℕ, ◌+◌, ◌-◌, ◌≡◌, refl, subst, [], ◌∷◌, ◌++◌, append_assoc, some, Bytes, codes, length,
  length-append, All, Lacks, ok, arith,
}
use asabru_commons.Strings.{find, find_from}
use asabru_commons.Strings.Find.{IsFree-of-Lacks, find_free, find_from_at, substr_at, substr_rest}
use asabru_commons.Strings.Lines.{IsWord}
use asabru_commons.Strings.Order.{IsSorted}
use asabru_commons.Http.Uri.{uri}
use asabru_commons.Http.Method
use asabru_commons.Http.Method.{HttpMethod, get, string_to_method-to_string}
use asabru_commons.Http.Version
use asabru_commons.Http.Version.{http_1_1, is_1_1, string_to_version-to_string}
use asabru_commons.Http.Message.{Headers, new_message, set_content}
use asabru_commons.Http.Request.{
  HttpRequest, to_string, string_to_request, parse_request, body_at, split_body,
}
use asabru_commons.Http.StartLine.{start_text, IsWord-no_cr, method-IsWord, start_request-text}
use asabru_commons.Http.Trim.{IsField, Lacks-append}
use asabru_commons.Http.Fields.{joined, print-joined, joined-IsFree, read_headers-lines}

body_at-append : (a b : Bytes) (n : ℕ) → n ≡ length a → body_at (a ++ b) n ≡ ok b
unfolding body_at
body_at-append a b n e = rw e (substr_rest a b)

-- What `to_string` can print so that it is read back: version 1.1, a path that is one word, and
-- headers in the order of their keys, at least one.
pub record IsPrintable (r : HttpRequest) : Type 0 where
  pub first : ℕ
  pub others : Bytes
  pub head : Bytes × Bytes
  pub tail : Headers
  pub path_is : r.request_uri ≡ uri (first ∷ others)
  pub path_word : IsWord (first ∷ others)
  pub version_is : r.message.version ≡ http_1_1
  pub headers_are : r.message.headers ≡ head ∷ tail
  pub fields : All IsField (head ∷ tail)
  pub sorted : IsSorted (head ∷ tail)

module _ (m : HttpMethod) (c : ℕ) (path : Bytes) (h : Bytes × Bytes) (hs : Headers)
    (content : Bytes) where
  abbrev request : HttpRequest
  request = record {
    message = record { version = http_1_1; headers = h ∷ hs; content = content };
    method = m;
    request_uri = uri (c ∷ path);
  }

  abbrev printed : Bytes
  printed =
      start_text m (c ∷ path) ++ (codes "\r\n" ++ (joined h hs ++ (codes "\r\n\r\n" ++ content)))

  to_string-printed : to_string request ≡ printed
  unfolding to_string Version.to_string
  to_string-printed = rw (print-joined h hs) (simp append_assoc)

  abbrev ahead : Bytes
  ahead = start_text m (c ∷ path) ++ codes "\r\n"

  module _ (word : IsWord (c ∷ path)) (fields : All IsField (h ∷ hs))
      (sorted : IsSorted (h ∷ hs)) where
    start-no_cr : Lacks b'\r' (start_text m (c ∷ path))
    start-no_cr = Lacks-append b'\r' (Method.to_string m) _ (IsWord-no_cr _ (method-IsWord m)) (
      omega arith,
      Lacks-append b'\r' (c ∷ path) (b' ' ∷ codes "HTTP/1.1") (IsWord-no_cr (c ∷ path) word)
          (omega arith),
    )

    find_start : find (codes "\r\n") printed ≡ some (length (start_text m (c ∷ path)))
    find_start =
        find_free (codes "\r\n") (start_text m (c ∷ path)) _ (λ e. cc)
          (IsFree-of-Lacks b'\r' (b'\n' ∷ []) _ _ start-no_cr)

    ahead-length : length (start_text m (c ∷ path)) + 2 ≡ length ahead
    ahead-length = omega (arith, length-append (start_text m (c ∷ path)) (codes "\r\n"))

    find_end :
        find_from
          (codes "\r\n\r\n")
          (ahead ++ (joined h hs ++ (codes "\r\n\r\n" ++ content)))
          (length ahead)
        ≡ some (length ahead + length (joined h hs))
    find_end =
        find_from_at (codes "\r\n\r\n") ahead (joined h hs) content (λ e. cc)
          (joined-IsFree h hs _ fields)

    split :
        split_body
          (ahead ++ (joined h hs ++ (codes "\r\n\r\n" ++ content)))
          (length ahead)
          (some (length ahead + length (joined h hs)))
        ≡ ok (joined h hs, content)
    unfolding split_body
    split = rw (size, substr_at ahead (joined h hs) (codes "\r\n\r\n" ++ content), body)
      where
        size : length ahead + length (joined h hs) - length ahead ≡ length (joined h hs)
        size = omega arith

        body :
            body_at
              (ahead ++ (joined h hs ++ (codes "\r\n\r\n" ++ content)))
              (length ahead + length (joined h hs) + 4)
            ≡ ok content
        body =
            subst (λ s. body_at s (length ahead + length (joined h hs) + 4) ≡ ok content)
              (simp append_assoc)
              (body_at-append ((ahead ++ joined h hs) ++ codes "\r\n\r\n") content _ (
                omega (
                  arith,
                  length-append (ahead ++ joined h hs) (codes "\r\n\r\n"),
                  length-append ahead (joined h hs),
                )))

    split_printed :
        split_body printed (length ahead) (find_from (codes "\r\n\r\n") printed (length ahead))
        ≡ ok (joined h hs, content)
    split_printed =
        subst
          (λ s.
            split_body s (length ahead) (find_from (codes "\r\n\r\n") s (length ahead))
            ≡ ok (joined h hs, content))
          (append_assoc (start_text m (c ∷ path)) (codes "\r\n") _) (rw find_end split)

    parse :
        parse_request printed (some (length (start_text m (c ∷ path))))
        ≡ ok (record request { message = set_content request.message content })
    unfolding parse_request
    parse =
        rw
          (
            substr_at [] (start_text m (c ∷ path)) _,
            ahead-length,
            split_printed,
            start_request-text m c path word,
          )
          (rw
            (read_headers-lines h hs (record { message = new_message; key = []; value = [] }) fields
              tt sorted)
            (unfold set_content in refl))

-- A printable request is read back from its text; `Content-Length` is set to the length of the
-- content, and everything else is as it was.
pub string_to_request-to_string :
    (r : HttpRequest)
    → IsPrintable r
    → string_to_request (to_string r)
      ≡ ok (record r { message = set_content r.message r.message.content })
unfolding string_to_request
string_to_request-to_string r p =
    subst
      (λ (q : HttpRequest).
        string_to_request (to_string q)
        ≡ ok (record q { message = set_content q.message q.message.content }))
      same
      (rw
        (
          to_string-printed r.method p.first p.others p.head p.tail r.message.content,
          find_start r.method p.first p.others p.head p.tail r.message.content p.path_word p.fields
              p.sorted,
        )
        (parse r.method p.first p.others p.head p.tail r.message.content p.path_word p.fields
          p.sorted))
  where
    same : request r.method p.first p.others p.head p.tail r.message.content ≡ r
    same = ground (arith, p.path_is, p.version_is, p.headers_are)
