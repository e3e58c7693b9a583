-- ===== src/Logger/Query.antt =====
-- The query that stores an entry, as SQL reads it.
use asabru_commons.Base.{
  ℕ, ◌≡◌, ◌≢◌, refl, Option, none, some, [], ◌∷◌, ◌++◌, append_assoc, Bytes, Lacks, codes, ◌==◌,
  if◌then◌else◌, arith,
}
use asabru_commons.Logger.Items.{with_byte}
use asabru_commons.Logger.Writer.{insert_query}

-- A string literal of SQL from behind its first quote, and what follows its last quote: two quotes in
-- a row stand for one.
unfoldable mutual
  pub read_literal : Bytes → Option (Bytes × Bytes)
  read_literal [] = none
  read_literal (c ∷ s) =
      let ended = behind_quote s in
      let more = with_byte c (read_literal s) in if c == b'\'' then ended else more

  pub behind_quote : Bytes → Option (Bytes × Bytes)
  behind_quote [] = some ([], [])
  behind_quote (c ∷ s) =
      let quoted = with_byte c (read_literal s) in if c == b'\'' then quoted else some ([], c ∷ s)

read_literal-append :
    (a : Bytes) (c : ℕ) (b : Bytes)
    → Lacks b'\'' a
    → c ≢ b'\''
    → read_literal (a ++ b'\'' ∷ c ∷ b) ≡ some (a, c ∷ b)
unfolding read_literal behind_quote
read_literal-append [] c b h n = ground arith
read_literal-append (d ∷ a) c b h n = ground (arith, read_literal-append a c b h.1 n)

-- The query of an entry without single quotes has the entry as its value. That of an entry with a
-- single quote that no other follows has the part in front of the first quote, and what stands behind
-- it is read as SQL.
pub insert_query-read_literal :
    (a b : Bytes) (c : ℕ)
    → Lacks b'\'' a
    → c ≢ b'\''
    → ((text : Bytes) × (insert_query a ≡ codes "INSERT INTO logs VALUES('" ++ text)
        × (read_literal text ≡ some (a, codes ");")))
      × ((text : Bytes) × (insert_query (a ++ b'\'' ∷ c ∷ b)
            ≡ codes "INSERT INTO logs VALUES('" ++ text)
          × (read_literal text ≡ some (a, c ∷ (b ++ codes "');"))))
unfolding insert_query
insert_query-read_literal a b c h n = (
  (a ++ codes "');", refl, read_literal-append a b')' (codes ";") h (λ e. cc)),
  (
    (a ++ b'\'' ∷ c ∷ b) ++ codes "');",
    refl,
    rw (append_assoc a (b'\'' ∷ c ∷ b) (codes "');"))
        (read_literal-append a c (b ++ codes "');") h n),
  ),
)
