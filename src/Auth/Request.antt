-- ===== src/Auth/Request.antt =====
-- `read_request` of greeter/zero-greeter-auth.cpp. What `read` returns on the standard input is a list
-- of results, and its end is the end of the file.
pub mod RoundTrip
use cardputer_zero_os.Base.{
  ℕ, ◌<◌, Bool, not, ◌&&◌, Option, none, some, List, [], ◌∷◌, ◌++◌, Bytes, ltb, leb, if◌then◌else◌,
  is_empty, length, find_cut, strip_cr,
}

abbrev pub newline : ℕ
newline = 10

pub data ReadResult : Type 0 where
  got : Bytes → ReadResult
  interrupted failed : ReadResult

-- The reading loop, with the input so far.
unfoldable pub read_input : Bytes → List ReadResult → Option Bytes
read_input input [] = some input
read_input input (ReadResult.got [] ∷ more) = some input
read_input input (ReadResult.interrupted ∷ more) = read_input input more
read_input input (ReadResult.failed ∷ more) = none
read_input input (ReadResult.got (x ∷ xs) ∷ more) =
    let rest = read_input (input ++ x ∷ xs) more in
    if ltb 4096 (length (input ++ x ∷ xs)) then none else rest

-- The password ends at the second newline, or with the input.
until_newline : Bytes → Bytes
until_newline s = elim (find_cut newline s) [ none ↦ s | some (line, rest) ↦ line ]

accept : Bytes → Bytes → Option (Bytes × Bytes)
accept username password =
    if not (is_empty username) && leb (length username) 64 && leb (length password) 256
    then some (username, password)
    else none

unfoldable pub parse_request : Bytes → Option (Bytes × Bytes)
unfolding until_newline accept
parse_request input = elim (find_cut newline input) [
  | none ↦ none
  | some (username, rest) ↦ accept (strip_cr username) (strip_cr (until_newline rest))
]

parse_read : Option Bytes → Option (Bytes × Bytes)
unfolding parse_request
parse_read none = none
parse_read (some input) = parse_request input

-- The user name and the password, or none where `read_request` returns false.
unfoldable pub read_request : List ReadResult → Option (Bytes × Bytes)
unfolding read_input parse_read
read_request reads = parse_read (read_input [] reads)
