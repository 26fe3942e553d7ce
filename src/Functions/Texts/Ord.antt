-- ===== src/Functions/Texts/Ord.antt =====
-- ORD of a character, by its bytes.
use duckdb_engine.Prelude.{ℕ, ◌+◌, ◌*◌, ◌<◌, ◌∷◌, Bytes, none, some, ltb, if◌then◌else◌, ◌≡◌, arith}
use duckdb_engine.Functions.Texts.{ord_byte}

-- ORD of a text of four bytes or more: a character of one, two or three bytes gives the number that
-- its bytes are in base 256. A character of four bytes gives none, whatever its bytes are: the
-- number leaves `int32_t`.
pub ord_byte-overflow :
    (a b c d : ℕ) (s : Bytes)
    → a < 256
    → b < 256
    → c < 256
    → d < 256
    → ord_byte (a ∷ b ∷ c ∷ d ∷ s) ≡ (
        if ltb a 0xC0
        then some a
        else if ltb a 0xE0
        then some (a * 256 + b)
        else if ltb a 0xF0
        then some ((a * 256 + b) * 256 + c)
        else none)
unfolding ord_byte
ord_byte-overflow a b c d s ha hb hc hd = ground arith
