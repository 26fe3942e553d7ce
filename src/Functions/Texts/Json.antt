-- ===== src/Functions/Texts/Json.antt =====
-- JSON_UNQUOTE reads back what was quoted.
use duckdb_engine.Prelude.{ℕ, [], ◌∷◌, ◌++◌, Bytes, ◌≡◌, refl, ap, ◌∙◌, arith, ◌==◌, if◌then◌else◌}
use duckdb_engine.Functions.Texts.{unescape, last, without_last, json_unquote}

-- The text of a byte in a JSON string.
unfoldable pub escape_byte : ℕ → Bytes
escape_byte c =
    if c == b'"'
    then 92 ∷ b'"' ∷ []
    else if c == 92
    then 92 ∷ 92 ∷ []
    else if c == 8
    then 92 ∷ b'b' ∷ []
    else if c == 12
    then 92 ∷ b'f' ∷ []
    else if c == 10
    then 92 ∷ b'n' ∷ []
    else if c == 13
    then 92 ∷ b'r' ∷ []
    else if c == 9
    then 92 ∷ b't' ∷ []
    else c ∷ []

unfoldable pub escape : Bytes → Bytes
unfolding escape_byte
escape [] = []
escape (c ∷ s) = escape_byte c ++ escape s

-- A text as a JSON string.
unfoldable pub json_quote : Bytes → Bytes
unfolding escape
json_quote s = b'"' ∷ escape s ++ b'"' ∷ []

unescape-escape_byte : (c : ℕ) (t : Bytes) → unescape (escape_byte c ++ t) ≡ c ∷ unescape t
unfolding unescape escape_byte
unescape-escape_byte c t = ground arith

unescape-escape : (s : Bytes) → unescape (escape s) ≡ s
unfolding escape
unescape-escape [] = unfold unescape in refl
unescape-escape (c ∷ s) = unescape-escape_byte c (escape s) ∙ ap (◌∷◌ c) (unescape-escape s)

last-append : (d q : ℕ) (s : Bytes) → last d (s ++ q ∷ []) ≡ q
last-append d q [] = refl
last-append d q (c ∷ s) = last-append c q s

without_last-append : (d q : ℕ) (s : Bytes) → without_last d (s ++ q ∷ []) ≡ d ∷ s
without_last-append d q [] = refl
without_last-append d q (c ∷ s) = ap (◌∷◌ d) (without_last-append c q s)

unquote_quoted : (body : Bytes) → json_unquote (b'"' ∷ body ++ b'"' ∷ []) ≡ unescape body
unfolding json_unquote
unquote_quoted [] = refl
unquote_quoted (d ∷ body) = rw (last-append d b'"' body, without_last-append d b'"' body)

-- JSON_UNQUOTE of a text as a JSON string is the text, whatever its bytes are: quotes, backslashes
-- and the control characters that JSON has a letter for are escaped, and the others stand for
-- themselves.
pub json_unquote-quote : (s : Bytes) → json_unquote (json_quote s) ≡ s
unfolding json_quote
json_unquote-quote s = unquote_quoted (escape s) ∙ unescape-escape s
