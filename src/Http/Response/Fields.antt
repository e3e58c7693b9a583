-- ===== src/Http/Response/Fields.antt =====
-- The header lines that `to_string` printed, read by `string_to_response`.
use asabru_commons.Base.{
  ℕ, ◌≢◌, ◌||◌, ◌≡◌, refl, ◌∙◌, List, [], ◌∷◌, ◌++◌, append_assoc, append-nil, map, Bytes, codes,
  All, Lacks, false, ok, arith, str_eq,
}
use asabru_commons.Strings.{lines, is_empty}
use asabru_commons.Strings.Lines.{lines-append}
use asabru_commons.Strings.Order.{IsSorted, IsAbove, IsAbove-next, map_set-IsAbove}
use asabru_commons.Http.Message.{Message, Headers, set_header, print_headers}
use asabru_commons.Http.Trim.{IsField}
use asabru_commons.Http.Fields.{field_text, lines_next}
use asabru_commons.Http.Response.{read_response_headers, read_response_header-cr}

-- A header whose key is not empty, with no tab in it.
pub record IsPlain (h : Bytes × Bytes) : Type 0 where
  pub named : h.0 ≢ []
  pub field : IsField h
  pub key_no_tab : Lacks b'\t' h.0
  pub value_no_tab : Lacks b'\t' h.1

-- The value with the carriage return of the line end.
abbrev pub with_cr : Bytes × Bytes → Bytes × Bytes
with_cr h = (h.0, h.1 ++ b'\r' ∷ [])

no_end : (k : ℕ) (s : Bytes) → k ≢ b'\r' → (is_empty (k ∷ s) || str_eq (k ∷ s) (codes "\r")) ≡ false
unfolding is_empty str_eq
no_end k s h = ground arith

read_line :
    (m : Message) (h : Bytes × Bytes) (ls : List Bytes)
    → IsPlain h
    → read_response_headers m ((field_text h ++ b'\r' ∷ []) ∷ ls)
      ≡ read_response_headers (set_header m h.0 (h.1 ++ b'\r' ∷ [])) ls
unfolding read_response_headers
read_line m ([], value) ls p = absurd (p.named refl)
read_line m (k ∷ key, value) ls p = rw (
  no_end k _ p.field.key.no_cr.0,
  read_response_header-cr m k key value p.field p.key_no_tab p.value_no_tab,
)

read_end :
    (m : Message) (content : Bytes)
    → read_response_headers m (lines (b'\r' ∷ b'\n' ∷ content)) ≡ ok (m, lines content)
unfolding read_response_headers
read_end m content =
    rw (lines-append (b'\r' ∷ []) content (omega arith, tt)) (unfold is_empty str_eq in refl)

-- The next header stands behind those that were entered.
abbrev pub Follows : Headers → Headers → Type 0
Follows entered [] = Unit
Follows entered (h ∷ hs) = IsAbove h.0 entered

pub Follows-nil : (hs : Headers) → Follows [] hs
Follows-nil [] = tt
Follows-nil (h ∷ hs) = tt

Follows-next :
    (entered : Headers) (h : Bytes × Bytes) (value : Bytes) (hs : Headers)
    → IsAbove h.0 entered
    → IsSorted (h ∷ hs)
    → Follows (entered ++ (h.0, value) ∷ []) hs
Follows-next entered h value [] a s = tt
Follows-next entered h value (j ∷ hs) a s = IsAbove-next h.0 j.0 value entered a s.0.0

print_line :
    (h : Bytes × Bytes) (hs : Headers) (s : Bytes)
    → print_headers (h ∷ hs) ++ s ≡ field_text h ++ b'\r' ∷ b'\n' ∷ (print_headers hs ++ s)
unfolding print_headers
print_line h hs s = simp append_assoc

-- The loop over the printed lines enters the headers in their order and leaves the content.
pub read_response_headers-lines :
    (m : Message) (hs : Headers) (content : Bytes)
    → All IsPlain hs
    → Follows m.headers hs
    → IsSorted hs
    → read_response_headers m (lines (print_headers hs ++ b'\r' ∷ b'\n' ∷ content))
      ≡ ok (record m { headers = m.headers ++ map with_cr hs }, lines content)
unfolding set_header
read_response_headers-lines m [] content p f s =
    unfold print_headers in rw (read_end m content, append-nil)
read_response_headers-lines m (h ∷ hs) content p f s =
    rw
      (
        print_line h hs (b'\r' ∷ b'\n' ∷ content),
        lines_next h (print_headers hs ++ b'\r' ∷ b'\n' ∷ content) p.0.field,
        read_line m h (lines (print_headers hs ++ b'\r' ∷ b'\n' ∷ content)) p.0,
        map_set-IsAbove h.0 (h.1 ++ b'\r' ∷ []) m.headers f,
      )
      (read_response_headers-lines (record m { headers = m.headers ++ with_cr h ∷ [] }) hs content
          p.1 (Follows-next m.headers h (h.1 ++ b'\r' ∷ []) hs f s) s.1
        ∙ simp append_assoc)
