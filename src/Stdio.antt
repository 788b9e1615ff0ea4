-- ===== src/Stdio.antt =====
-- What src/loader.c and src/os.c use of C's input functions. A file is the list of the bytes that
-- are still to be read. Numbers are converted as the GNU C library does it: by `strtoul` and
-- `strtol`, which stop at the bounds of 64 bits, and then to the type that is stored.
pub mod Numbers
pub mod Lines
pub mod Fields
use Prim.Native.Char.{code}
use Prim.Native.String.{String}
use assignment_os.Base.{
  ℕ, zero, suc, ◌+◌, ◌-◌, ◌*◌, ◌%◌, ◌^◌, Bool, true, false, ◌&&◌, ◌||◌, Option, none, some, List,
  [], ◌∷◌, ltb, leb, ◌==◌, if◌then◌else◌, min, word, length,
}

abbrev pub Bytes : Type 0
Bytes = List ℕ

-- The bytes of a text in ASCII.
abbrev pub codes : String → Bytes
codes String.[] = []
codes (String.◌∷◌ c s) = code c ∷ codes s

-- `isspace`
abbrev pub is_space : ℕ → Bool
is_space c = c == b' ' || (leb 9 c && leb c 13)

abbrev pub is_digit : ℕ → Bool
is_digit c = leb b'0' c && leb c b'9'

-- White space in a format.
unfoldable pub skip_space : Bytes → Bytes
skip_space [] = []
skip_space (c ∷ s) = let rest = skip_space s in if is_space c then rest else c ∷ s

-- The digits in front, read as a number that begins with the digits `n`.
unfoldable pub take_digits : Bytes → (n : ℕ) → ℕ × Bytes
take_digits [] n = (n, [])
take_digits (c ∷ s) n =
    let more = take_digits s (n * 10 + (c - b'0')) in if is_digit c then more else (n, c ∷ s)

-- At least one digit.
unfoldable pub number : Bytes → Option ℕ × Bytes
number [] = (none, [])
number (c ∷ s) =
    if is_digit c then (let (n, rest) = take_digits (c ∷ s) 0 in (some n, rest)) else (none, c ∷ s)

-- A sign, if there is one, and then a number.
unfoldable pub signed : Bytes → Bool × (Option ℕ × Bytes)
signed [] = (false, (none, []))
signed (c ∷ s) =
    if c == b'-'
    then (true, number s)
    else if c == b'+'
    then (false, number s)
    else (false, number (c ∷ s))

-- `strtoul` and `strtol`, of a sign and a number, as 64 bits.
abbrev pub strtoul : (minus : Bool) → ℕ → ℕ
strtoul minus n = if leb (2 ^ 64) n then 2 ^ 64 - 1 else if minus then (2 ^ 64 - n) % 2 ^ 64 else n

abbrev pub strtol : (minus : Bool) → ℕ → ℕ
strtol minus n = if minus then (2 ^ 64 - min n (2 ^ 63)) % 2 ^ 64 else min n (2 ^ 63 - 1)

-- What a conversion for a number stores: nothing if there is none to read, where `scanf` stops.
abbrev pub stored : (convert : Bool → ℕ → ℕ) → Bool × (Option ℕ × Bytes) → Option ℕ × Bytes
stored convert (minus, (none, rest)) = (none, rest)
stored convert (minus, (some n, rest)) = (some (convert minus n), rest)

unfoldable pub scan_number : (convert : Bool → ℕ → ℕ) → Bytes → Option ℕ × Bytes
scan_number convert s = stored convert (signed (skip_space s))

-- `%u`, `%d` into 32 bits, and `%lu`.
abbrev pub percent_u : Bool → ℕ → ℕ
percent_u minus n = strtoul minus n % word

abbrev pub percent_d : Bool → ℕ → ℕ
percent_d minus n = strtol minus n % word

abbrev pub percent_lu : Bool → ℕ → ℕ
percent_lu = strtoul

-- A value in front of those that were read after it.
abbrev pub before : ℕ → List ℕ × Bytes → List ℕ × Bytes
before n (ns, rest) = (n ∷ ns, rest)

-- What the first conversion gave, and the conversions after it.
abbrev pub then_scan : Option ℕ × Bytes → (Bytes → List ℕ × Bytes) → List ℕ × Bytes
then_scan (none, rest) next = ([], rest)
then_scan (some n, rest) next = before n (next rest)

-- As many conversions in a row, up to the first that fails: the values stored, and the rest.
unfoldable pub scan_numbers : (convert : Bool → ℕ → ℕ) → (k : ℕ) → Bytes → List ℕ × Bytes
scan_numbers convert zero s = ([], s)
scan_numbers convert (suc k) s =
    then_scan (scan_number convert s) (λ rest. scan_numbers convert k rest)

-- The bytes up to the next white space.
unfoldable pub take_word : Bytes → Bytes × Bytes
take_word [] = ([], [])
take_word (c ∷ s) = let (w, rest) = take_word s in if is_space c then ([], c ∷ s) else (c ∷ w, rest)

abbrev pub some_word : Bytes × Bytes → Option Bytes × Bytes
some_word ([], rest) = (none, rest)
some_word (c ∷ w, rest) = (some (c ∷ w), rest)

-- `%s`: `none` at the end of the file.
unfoldable pub scan_word : Bytes → Option Bytes × Bytes
scan_word s = some_word (take_word (skip_space s))

-- What `fgets` reads with room for `room` bytes: to the end of the line, the `\n` included.
unfoldable pub take_line : (room : ℕ) → Bytes → Bytes × Bytes
take_line zero s = ([], s)
take_line (suc room) [] = ([], [])
take_line (suc room) (c ∷ s) =
    let (line, rest) = take_line room s in if c == 10 then (c ∷ [], s) else (c ∷ line, rest)

-- A C string ends before its first zero byte.
unfoldable pub c_string : Bytes → Bytes
c_string [] = []
c_string (c ∷ s) = let rest = c_string s in if c == 0 then [] else c ∷ rest

-- Whether two lists of bytes are the same.
unfoldable pub same_bytes : Bytes → Bytes → Bool
same_bytes [] [] = true
same_bytes [] (d ∷ t) = false
same_bytes (c ∷ s) [] = false
same_bytes (c ∷ s) (d ∷ t) = c == d && same_bytes s t

-- `!strcmp(s, t)`
abbrev pub str_equal : Bytes → Bytes → Bool
str_equal s t = same_bytes (c_string s) (c_string t)
