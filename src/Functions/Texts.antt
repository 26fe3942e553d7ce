-- ===== src/Functions/Texts.antt =====
-- The functions of runtime/duckdb_mysql_compat.cc on texts: OCTET_LENGTH and LENGTH, ASCII, ORD,
-- LOCATE, LTRIM and RTRIM with a pattern, and JSON_UNQUOTE. A text is the list of its bytes, and
-- an offset into it is what is left behind the offset.
pub mod Search
pub mod Trim
pub mod Json
pub mod Ord
use duckdb_engine.Prelude.{
  ℕ, zero, suc, ◌+◌, ◌-◌, ◌*◌, ◌^◌, Bool, true, false, ◌&&◌, not, [], ◌∷◌, ◌++◌, Bytes, Option,
  none, some, length, ltb, leb, ◌==◌, if◌then◌else◌,
}
use duckdb_engine.Convert.Types.{same_bytes}

-- octet_length, length of a VARCHAR, and length of a BLOB
unfoldable pub length_bytes : Bytes → ℕ
length_bytes s = length s

unfoldable pub ascii_byte : Bytes → ℕ
ascii_byte [] = 0
ascii_byte (c ∷ s) = c

-- The length of a UTF-8 character by its first byte.
unfoldable pub char_len : ℕ → ℕ
char_len c = if leb 0xF0 c then 4 else if leb 0xE0 c then 3 else if leb 0xC0 c then 2 else 1

-- `int32_t val= val * 256 + data[i]`, for as many bytes as the character and the text have; `none`
-- where the sum is no int32_t.
unfoldable pub ord_bytes : ℕ → Bytes → ℕ → Option ℕ
ord_bytes zero s val = some val
ord_bytes (suc n) [] val = some val
ord_bytes (suc n) (c ∷ s) val =
    let rest = ord_bytes n s (val * 256 + c) in if ltb (val * 256 + c) (2 ^ 31) then rest else none

unfoldable pub ord_byte : Bytes → Option ℕ
unfolding char_len ord_bytes
ord_byte [] = some 0
ord_byte (c ∷ s) = if char_len c == 1 then some c else ord_bytes (char_len c) (c ∷ s) 0

-- memcmp(s, pattern, size) == 0, where the text may be too short: what is behind the pattern.
unfoldable pub strip : Bytes → Bytes → Option Bytes
strip [] s = some s
strip (p ∷ pattern) [] = none
strip (p ∷ pattern) (c ∷ s) = if c == p then strip pattern s else none

abbrev pub is_some {ℓ} : {A : Type ℓ} → Option A → Bool
is_some none = false
is_some (some a) = true

abbrev pub drop : ℕ → Bytes → Bytes
drop zero s = s
drop (suc n) [] = []
drop (suc n) (c ∷ s) = drop n s

abbrev pub take : ℕ → Bytes → Bytes
take zero s = []
take (suc n) [] = []
take (suc n) (c ∷ s) = c ∷ take n s

-- The loop of both forms of LOCATE, with the rounds that it has left.
unfoldable pub locate_from : Bytes → ℕ → Bytes → ℕ → ℕ
unfolding strip
locate_from needle zero s i = 0
locate_from needle (suc rounds) s i =
    let rest = locate_from needle rounds (drop 1 s) (i + 1) in
    if is_some (strip needle s) then i + 1 else rest

unfoldable pub locate_2arg : Bytes → Bytes → ℕ
unfolding locate_from
locate_2arg [] haystack = 1
locate_2arg (n ∷ needle) haystack =
    let needle_size = length (n ∷ needle) in
    if ltb (length haystack) needle_size
    then 0
    else locate_from (n ∷ needle) (length haystack - needle_size + 1) haystack 0

-- A position below 1 is 0 here: the test is `pos < 1`.
unfoldable pub locate_3arg : Bytes → Bytes → ℕ → ℕ
unfolding locate_from
locate_3arg needle haystack zero = 0
locate_3arg [] haystack (suc start) = suc start
locate_3arg (n ∷ needle) haystack (suc start) =
    let needle_size = length (n ∷ needle) in
    if leb (length haystack) start
    then 0
    else if ltb (length haystack - start) needle_size
    then 0
    else locate_from (n ∷ needle) (length haystack - needle_size - start + 1) (drop start haystack)
        start

-- The loops of LTRIM and RTRIM with a pattern, whose special case for one byte is the same loop.
-- A round takes a byte at least, so the size of the text is fuel enough.
unfoldable pub ltrim_from : ℕ → Bytes → Bytes → Bytes
unfolding strip
ltrim_from zero pattern s = s
ltrim_from (suc fuel) pattern s = elim (strip pattern s) [
  | none ↦ s
  | some rest ↦ ltrim_from fuel pattern rest
]

unfoldable pub ltrim_substr : Bytes → Bytes → Bytes
unfolding ltrim_from
ltrim_substr s [] = s
ltrim_substr s (p ∷ pattern) =
    if ltb (length s) (length (p ∷ pattern)) then s else ltrim_from (length s) (p ∷ pattern) s

-- memcmp(data + slen - plen, pdata, plen) == 0, behind the test of the sizes.
unfoldable pub ends_with : Bytes → Bytes → Bool
unfolding same_bytes
ends_with pattern s =
    leb (length pattern) (length s) && same_bytes (drop (length s - length pattern) s) pattern

unfoldable pub rtrim_from : ℕ → Bytes → Bytes → Bytes
unfolding ends_with
rtrim_from zero pattern s = s
rtrim_from (suc fuel) pattern s =
    let rest = rtrim_from fuel pattern (take (length s - length pattern) s) in
    if ends_with pattern s then rest else s

unfoldable pub rtrim_substr : Bytes → Bytes → Bytes
unfolding rtrim_from
rtrim_substr s [] = s
rtrim_substr s (p ∷ pattern) =
    if ltb (length s) (length (p ∷ pattern)) then s else rtrim_from (length s) (p ∷ pattern) s

-- The letter behind a backslash.
unfoldable pub unescaped : ℕ → Bytes
unescaped c =
    if c == b'"'
    then b'"' ∷ []
    else if c == 92
    then 92 ∷ []
    else if c == b'/'
    then b'/' ∷ []
    else if c == b'b'
    then 8 ∷ []
    else if c == b'f'
    then 12 ∷ []
    else if c == b'n'
    then 10 ∷ []
    else if c == b'r'
    then 13 ∷ []
    else if c == b't'
    then 9 ∷ []
    else 92 ∷ c ∷ []

-- The bytes between the quotes. A backslash that is the last of them stays.
unfoldable pub unescape : Bytes → Bytes
unfolding unescaped
unescape [] = []
unescape (c ∷ []) = c ∷ []
unescape (c ∷ d ∷ s) =
    let escape = unescaped d ++ unescape s in
    let plain = c ∷ unescape (d ∷ s) in if c == 92 then escape else plain

abbrev pub last : ℕ → Bytes → ℕ
last c [] = c
last c (d ∷ s) = last d s

abbrev pub without_last : ℕ → Bytes → Bytes
without_last c [] = []
without_last c (d ∷ s) = c ∷ without_last d s

unfoldable pub json_unquote : Bytes → Bytes
unfolding unescape
json_unquote [] = []
json_unquote (c ∷ []) = c ∷ []
json_unquote (c ∷ d ∷ s) =
    if (c == b'"') && (last d s == b'"') then unescape (without_last d s) else c ∷ d ∷ s
