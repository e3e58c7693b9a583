-- ===== src/Logger/Items.antt =====
-- The entries of the network strategy and of the file strategy.
use asabru_commons.Base.{
  ℕ, true, ltb, zero, suc, ◌+◌, ◌<◌, ◌≡◌, ◌≢◌, refl, sym, Bool-cases, inl, inr, false, Option, none,
  some, [], ◌∷◌, ◌++◌, Bytes, Lacks, codes, length, drop, ◌==◌, if◌then◌else◌, str_eq, ok, err,
  undefined_behaviour, arith, append_assoc, length-append, take-length-append, drop-length-append,
}
use asabru_commons.Strings.{find, is_prefix}
use asabru_commons.Strings.Find.{find_free, IsFree-of-Lacks}
use asabru_commons.Utils.{split, split_loop}
use asabru_commons.Utils.Escapes.{meant}
use asabru_commons.Logger.Strategy.{
  get_log_code, escape_quotes, query_item, latency_item, coded_item, net_item,
}

-- The reader of a JSON string from behind its first quote: the string, and what follows its last
-- quote. Bytes below 32 may not stand in a string.
abbrev pub with_byte : ℕ → Option (Bytes × Bytes) → Option (Bytes × Bytes)
with_byte c none = none
with_byte c (some (s, rest)) = some (c ∷ s, rest)

unfoldable mutual
  pub read_string : Bytes → Option (Bytes × Bytes)
  read_string [] = none
  read_string (c ∷ s) =
      let escaped = behind_backslash s in
      let plain = with_byte c (read_string s) in
      if ltb c 32
      then none
      else if c == b'"'
      then some ([], s)
      else if c == b'\\'
      then escaped
      else plain

  pub behind_backslash : Bytes → Option (Bytes × Bytes)
  behind_backslash [] = none
  behind_backslash (c ∷ s) = with_byte (meant c) (read_string s)

-- No byte is a backslash or below 32.
abbrev pub IsPlain : Bytes → Type 0
IsPlain [] = Unit
IsPlain (c ∷ s) = (c ≢ b'\\') × (ltb c 32 ≡ false) × IsPlain s

read_string-escape_quotes :
    (s rest : Bytes) → IsPlain s → read_string (escape_quotes s ++ b'"' ∷ rest) ≡ some (s, rest)
unfolding read_string behind_backslash escape_quotes
read_string-escape_quotes [] rest h = refl
read_string-escape_quotes (c ∷ s) rest h = ground (arith, read_string-escape_quotes s rest h.2)

read_string-control :
    (s : Bytes) (c : ℕ) (rest : Bytes)
    → IsPlain s
    → ltb c 32 ≡ true
    → read_string (escape_quotes s ++ c ∷ rest) ≡ none
unfolding read_string behind_backslash escape_quotes
read_string-control [] c rest h low = rw low refl
read_string-control (d ∷ s) c rest h low = ground (arith, read_string-control s c rest h.2 low)

escape_quotes-append : (s t : Bytes) → escape_quotes (s ++ t) ≡ escape_quotes s ++ escape_quotes t
unfolding escape_quotes
escape_quotes-append [] t = refl
escape_quotes-append (c ∷ s) t = ground (arith, escape_quotes-append s t)

-- The part of the entry of a query behind the first quote of the query.
abbrev pub query_text : Bytes → Bytes → Bytes
query_text app cause =
    escape_quotes cause ++ b'"' ∷ (codes ",\"correlation_id\":\"" ++ (app ++ codes "\"}\n"))

query_text-control :
    (app a : Bytes) (c : ℕ) (b : Bytes)
    → IsPlain a
    → ltb c 32 ≡ true
    → read_string (query_text app (a ++ c ∷ b)) ≡ none
unfolding escape_quotes
query_text-control app a c b h low =
    let other : (c == b'"') ≡ false = ground arith in
    rw
      (
        escape_quotes-append a (c ∷ b),
        other,
        append_assoc (escape_quotes a) (c ∷ escape_quotes b)
            (b'"' ∷ (codes ",\"correlation_id\":\"" ++ (app ++ codes "\"}\n"))),
      )
      (read_string-control a c _ h low)

-- In the entry of a query without backslashes and without bytes below 32 a reader of JSON finds the
-- query as a string. In that of a query with a byte below 32 and no backslash in front of it, the
-- reader finds no string.
pub net_item-read_string :
    (app cause b : Bytes) (c : ℕ)
    → IsPlain cause
    → ltb c 32 ≡ true
    → ((text : Bytes) × (net_item app (codes "QUERY") cause
          ≡ ok (codes "{\"type\": \"query\",\"query\":\"" ++ text))
        × (read_string text
            ≡ some (cause, codes ",\"correlation_id\":\"" ++ (app ++ codes "\"}\n"))))
      × ((text : Bytes) × (net_item app (codes "QUERY") (cause ++ c ∷ b)
            ≡ ok (codes "{\"type\": \"query\",\"query\":\"" ++ text))
          × (read_string text ≡ none))
unfolding net_item get_log_code str_eq coded_item query_item
net_item-read_string app cause b c h low = (
  (query_text app cause, refl, read_string-escape_quotes cause _ h),
  (query_text app (cause ++ c ∷ b), refl, query_text-control app cause c b h low),
)

find_of-Lacks : (c : ℕ) (s : Bytes) → Lacks c s → find (c ∷ []) s ≡ none
unfolding find is_prefix
find_of-Lacks c [] h = refl
find_of-Lacks c (d ∷ s) h = ground (arith, find_of-Lacks c s h.1)

split_loop_of-Lacks :
    (n c : ℕ) (s : Bytes) → 0 < n → Lacks c s → split_loop n (c ∷ []) s ≡ some (s ∷ [])
unfolding split_loop
split_loop_of-Lacks zero c s k h = absurd (omega arith)
split_loop_of-Lacks (suc n) c s k h = rw (find_of-Lacks c s h) refl

split_single : (c : ℕ) (s : Bytes) → Lacks c s → split s (c ∷ []) ≡ some (s ∷ [])
unfolding split
split_single c s h = split_loop_of-Lacks (suc (length s)) c s (omega arith) h

split_pair :
    (c : ℕ) (a b : Bytes) → Lacks c a → Lacks c b → split (a ++ c ∷ b) (c ∷ []) ≡ some (a ∷ b ∷ [])
unfolding split split_loop
split_pair c a b h k =
    rw
      (
        find_free (c ∷ []) a b (cc) (IsFree-of-Lacks c [] a ((c ∷ []) ++ b) h),
        take-length-append a (c ∷ b),
        behind,
        split_loop_of-Lacks (length (a ++ c ∷ b)) c b filled k,
      )
      refl
  where
    behind : drop (length a + length (c ∷ [])) (a ++ c ∷ b) ≡ b
    behind =
        rw (← append_assoc a (c ∷ []) b, ← length-append a (c ∷ []))
          (drop-length-append (a ++ c ∷ []) b)

    filled : 0 < length (a ++ c ∷ b)
    filled = omega (arith, length-append a (c ∷ b))

escape_quotes-Lacks : (c : ℕ) (s : Bytes) → c ≢ b'\\' → Lacks c s → Lacks c (escape_quotes s)
unfolding escape_quotes
escape_quotes-Lacks c [] n h = tt
escape_quotes-Lacks c (d ∷ s) n h = elim (Bool-cases (d == b'"')) [
  | inl quote ↦ rw quote ((λ e. n (sym e)), (h.0, escape_quotes-Lacks c s n h.1))
  | inr other ↦ rw other (h.0, escape_quotes-Lacks c s n h.1)
]

-- The entry of a latency with its two fields.
abbrev pub latency_text : Bytes → Bytes → Bytes → Bytes
latency_text app value host =
    codes "{\"type\": \"latency\",\"latency\": \""
    ++ (value
        ++ (codes "\",\"correlation_id\":\""
            ++ (app ++ (codes "\",\"host\": \"" ++ (host ++ codes "\"}\n")))))

-- A latency of two fields is logged with both, and one of a single field is undefined behaviour.
pub net_item-latency :
    (app a b : Bytes)
    → Lacks b',' a
    → Lacks b',' b
    → (net_item app (codes "LATENCY") (a ++ b',' ∷ b)
        ≡ ok (latency_text app (escape_quotes a) (escape_quotes b)))
      × (net_item app (codes "LATENCY") a ≡ err undefined_behaviour)
unfolding net_item get_log_code str_eq coded_item latency_item split escape_quotes
net_item-latency app a b h k = (two, one)
  where
    ha : Lacks b',' (escape_quotes a)
    ha = escape_quotes-Lacks b',' a (omega arith) h

    hb : Lacks b',' (escape_quotes b)
    hb = escape_quotes-Lacks b',' b (omega arith) k

    two :
        net_item app (codes "LATENCY") (a ++ b',' ∷ b)
        ≡ ok (latency_text app (escape_quotes a) (escape_quotes b))
    two =
        rw
          (
            escape_quotes-append a (b',' ∷ b),
            split_pair b',' (escape_quotes a) (escape_quotes b) ha hb,
          )
          refl

    one : net_item app (codes "LATENCY") a ≡ err undefined_behaviour
    one = rw (split_single b',' (escape_quotes a) ha) refl
