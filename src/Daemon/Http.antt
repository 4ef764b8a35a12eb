-- ===== src/Daemon/Http.antt =====
-- The helpers of crates/agent-send-daemon/src/lib.rs that take an HTTP request apart. What
-- `String::from_utf8_lossy` makes of bytes is a parameter.
use agent_send.Base.{
  ℕ, ◌+◌, ◌*◌, ◌-◌, ◌%◌, Text, text, Bytes, List, [], ◌∷◌, Bool, true, false, ◌&&◌, Option, none,
  some, ◌≡◌, refl, ◌==◌, ℕ_eq, Text_eq, text_eq, if◌then◌else◌, any, length, leb, ltb,
  is_ascii_digit, trim, strip_prefix,
}
use agent_send.Limits.{u64_mod}
use agent_send.Transfer.Incoming.{eq_ignore_ascii_case}

-- The arms of `is_allowed_origin`
abbrev pub allowed_origins : List Text
allowed_origins =
    text "tauri://localhost"
    ∷ text "http://tauri.localhost"
    ∷ text "http://localhost"
    ∷ text "http://127.0.0.1"
    ∷ text "http://localhost:1420"
    ∷ text "http://127.0.0.1:1420"
    ∷ []

-- `is_allowed_origin`
unfoldable pub is_allowed_origin : Text → Bool
is_allowed_origin origin = any (λ o. o == origin) allowed_origins

-- A line without the carriage return at its end
abbrev without_cr : Text → Text
without_cr [] = []
without_cr (c ∷ []) = if c == 13 then [] else c ∷ []
without_cr (c ∷ d ∷ rest) = c ∷ without_cr (d ∷ rest)

abbrev onto : ℕ → List Text → List Text
onto c [] = (c ∷ []) ∷ []
onto c (line ∷ rest) = (c ∷ line) ∷ rest

-- The lines with their carriage returns; an empty last line is none.
unfoldable pub raw_lines : Text → List Text
raw_lines [] = []
raw_lines (c ∷ cs) = let rest = raw_lines cs in if c == 10 then [] ∷ rest else onto c rest

abbrev each_without_cr : List Text → List Text
each_without_cr [] = []
each_without_cr (line ∷ rest) = without_cr line ∷ each_without_cr rest

-- `str::lines`
unfoldable pub lines : Text → List Text
unfolding raw_lines
lines s = each_without_cr (raw_lines s)

abbrev after_key : ℕ → Option (Text × Text) → Option (Text × Text)
after_key c none = none
after_key c (some (key, value)) = some (c ∷ key, value)

-- `line.split_once(':')`
unfoldable pub split_once : ℕ → Text → Option (Text × Text)
split_once mark [] = none
split_once mark (c ∷ cs) =
    let rest = split_once mark cs in if c == mark then some ([], cs) else after_key c rest

abbrev value_if : Text → Option (Text × Text) → Option Text
value_if name none = none
value_if name (some (key, value)) =
    if eq_ignore_ascii_case key name then some (trim value) else none

abbrev or_else : Option Text → Option Text → Option Text
or_else none b = b
or_else (some a) b = some a

-- The `find_map` of `header_value`
unfoldable pub find_header : Text → List Text → Option Text
unfolding split_once trim
find_header name [] = none
find_header name (line ∷ rest) =
    let later = find_header name rest in or_else (value_if name (split_once b':' line)) later

abbrev tail : List Text → List Text
tail [] = []
tail (x ∷ xs) = xs

-- `header_value`
unfoldable pub header_value : Text → Text → Option Text
unfolding find_header lines
header_value head name = find_header name (tail (lines head))

-- The position of `\r\n\r\n`
unfoldable pub header_end : Bytes → Option ℕ
header_end [] = none
header_end (a ∷ rest) =
    let later = header_end rest in
    if starts (13 ∷ 10 ∷ 13 ∷ 10 ∷ []) (a ∷ rest) then some 0 else next later
  where
    starts : Bytes → Bytes → Bool
    starts [] bs = true
    starts (p ∷ ps) [] = false
    starts (p ∷ ps) (b ∷ bs) = p == b && starts ps bs

    next : Option ℕ → Option ℕ
    next none = none
    next (some n) = some (n + 1)

-- `line.strip_prefix("Content-Length:").or_else(|| line.strip_prefix("content-length:"))`
unfoldable pub content_length_of : List Text → Option Text
unfolding strip_prefix
content_length_of [] = none
content_length_of (line ∷ rest) =
    let later = content_length_of rest in
    or_else
      (or_else (strip_prefix (text "Content-Length:") line)
        (strip_prefix (text "content-length:") line))
      later

-- `str::parse::<usize>`, on a machine of 64 bits: a sign in front, digits, no overflow
unfoldable pub parse_digits : ℕ → Text → Option ℕ
parse_digits acc [] = some acc
parse_digits acc (c ∷ cs) =
    let next = acc * 10 + (c - b'0') in
    if is_ascii_digit c && ltb next u64_mod then parse_digits next cs else none

unfoldable pub parse_usize : Text → Option ℕ
unfolding parse_digits
parse_usize [] = none
parse_usize (c ∷ []) = parse_digits 0 (c ∷ [])
parse_usize (c ∷ d ∷ rest) =
    if c == b'+' then parse_digits 0 (d ∷ rest) else parse_digits 0 (c ∷ d ∷ rest)

abbrev or_zero : Option ℕ → ℕ
or_zero none = 0
or_zero (some n) = n

abbrev parse_value : Option Text → ℕ
parse_value none = 0
parse_value (some value) = or_zero (parse_usize (trim value))

abbrev take_bytes : ℕ → Bytes → Bytes
take_bytes n [] = []
take_bytes n (b ∷ bs) = if n == 0 then [] else b ∷ take_bytes (n - 1) bs

module _ (from_utf8_lossy : Bytes → Text) where
  abbrev complete_from : Bytes → Option ℕ → Bool
  complete_from request none = false
  complete_from request (some n) =
      let head = from_utf8_lossy (take_bytes n request) in
      leb ((n + 4 + parse_value (content_length_of (lines head))) % u64_mod) (length request)

  -- `request_is_complete`; the sum wraps around in a release build
  unfoldable pub request_is_complete : Bytes → Bool
  unfolding header_end content_length_of parse_usize trim lines
  request_is_complete request = complete_from request (header_end request)

header_value_test :
    header_value
      (text "GET / HTTP/1.1\r\nHost: x\r\nauthorization:  Bearer abc \r\n")
      (text "Authorization")
    ≡ some (text "Bearer abc")
unfolding header_value text_eq
header_value_test = refl

complete_test :
    request_is_complete (λ b. b) (text "POST / HTTP/1.1\r\nContent-Length: 2\r\n\r\nhi") ≡ true
unfolding request_is_complete
complete_test = refl
