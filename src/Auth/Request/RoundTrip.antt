-- ===== src/Auth/Request/RoundTrip.antt =====
-- `read_request` on what the greeter writes, however the pipe cuts it into pieces.
use cardputer_zero_os.Base.{
  ◌≤◌, ◌≡◌, ◌≢◌, refl, ap, sym, inl, inr, some, List, [], ◌∷◌, ◌++◌, Bytes, append_assoc,
  append-nil, map, length, length-append, Lacks, find_cut, find_cut-append, strip_cr, All,
  Option-cases, arith,
}
use cardputer_zero_os.Auth.Request.{
  newline, ReadResult, read_input, until_newline, accept, parse_request, parse_read, read_request,
}

-- A text that `strip_cr` keeps.
abbrev pub EndsPlain : Bytes → Type 0
EndsPlain [] = Unit {0}
EndsPlain (c ∷ []) = c ≢ 13
EndsPlain (c ∷ d ∷ s) = EndsPlain (d ∷ s)

pub strip_cr_plain : (s : Bytes) → EndsPlain s → strip_cr s ≡ s
unfolding strip_cr
strip_cr_plain [] h = refl
strip_cr_plain (c ∷ []) h = ground arith
strip_cr_plain (c ∷ d ∷ s) h = ap (◌∷◌ c) (strip_cr_plain (d ∷ s) h)

-- What the greeter sends.
abbrev pub request_text : Bytes → Bytes → Bytes
request_text username password = username ++ newline ∷ (password ++ newline ∷ [])

-- A user name and a password that the protocol can carry.
pub record IsSendable (username password : Bytes) : Type 0 where
  pub one_line : Lacks newline username × Lacks newline password
  pub no_cr : EndsPlain username × EndsPlain password
  pub named : username ≢ []
  pub fits : (length username ≤ 64) × (length password ≤ 256)

accept_fits : (u p : Bytes) → u ≢ [] → length u ≤ 64 → length p ≤ 256 → accept u p ≡ some (u, p)
unfolding accept
accept_fits [] p h hu hp = absurd (h refl)
accept_fits (c ∷ u) p h hu hp = ground arith

parse_request-request_text :
    (u p : Bytes) → IsSendable u p → parse_request (request_text u p) ≡ some (u, p)
parse_request-request_text u p v =
    let first = find_cut-append newline u (p ++ newline ∷ []) v.one_line.0 in
    let second = find_cut-append newline p [] v.one_line.1 in parsed first second
  where
    parsed :
        find_cut newline (request_text u p) ≡ some (u, p ++ newline ∷ [])
        → find_cut newline (p ++ newline ∷ []) ≡ some (p, [])
        → parse_request (request_text u p) ≡ some (u, p)
    parsed e f =
        unfold parse_request in
        rw (e, parse_request)
          (rw (f, until_newline)
            (rw (strip_cr_plain u v.no_cr.0, strip_cr_plain p v.no_cr.1)
              (accept_fits u p v.named v.fits.0 v.fits.1)))

-- The pieces that a pipe delivers, none of them empty.
abbrev pub pieces : List Bytes → Bytes
pieces [] = []
pieces (p ∷ ps) = p ++ pieces ps

read_input-pieces :
    (input : Bytes) (ps : List Bytes)
    → All (λ p. p ≢ []) ps
    → length (input ++ pieces ps) ≤ 4096
    → read_input input (map ReadResult.got ps) ≡ some (input ++ pieces ps)
unfolding read_input
read_input-pieces input [] h fits = ap some (sym (append-nil input))
read_input-pieces input ([] ∷ ps) (hp, h) fits = absurd (hp refl)
read_input-pieces input ((x ∷ xs) ∷ ps) (hp, h) fits = ground (
  arith,
  append_assoc input (x ∷ xs) (pieces ps),
  length-append (input ++ x ∷ xs) (pieces ps),
  read_input-pieces (input ++ x ∷ xs) ps h,
)

-- The helper reads back the user name and the password that the greeter sent, however the pipe cuts
-- the request into pieces, none of them empty. That is for a user name that is not empty and of at most
-- 64 bytes, and a password of at most 256, where neither holds a newline and neither ends with a
-- carriage return.
pub read_request-request_text :
    (u p : Bytes) (ps : List Bytes)
    → IsSendable u p
    → All (λ q. q ≢ []) ps
    → pieces ps ≡ request_text u p
    → read_request (map ReadResult.got ps) ≡ some (u, p)
unfolding read_request
read_request-request_text u p ps v h e =
    let short : length (pieces ps) ≤ 4096 = omega (
      arith,
      ap length e,
      length-append u (newline ∷ (p ++ newline ∷ [])),
      length-append p (newline ∷ []),
      v.fits.0,
      v.fits.1,
    ) in
    rw (read_input-pieces [] ps h short, e) (parse_request-request_text u p v)

accept_sound :
    (u p u' p' : Bytes)
    → accept u p ≡ some (u', p')
    → (u' ≢ []) × (length u' ≤ 64) × (length p' ≤ 256)
unfolding accept
accept_sound [] p u' p' h = absurd (cc)
accept_sound (c ∷ u) p u' p' h = ground arith

parse_request_sound :
    (input u p : Bytes)
    → parse_request input ≡ some (u, p)
    → (u ≢ []) × (length u ≤ 64) × (length p ≤ 256)
unfolding parse_request
parse_request_sound input u p h = elim (Option-cases (find_cut newline input)) [
  | inl e ↦ absurd (cc (rw (e, parse_request) at h))
  | inr ((l, rest), e) ↦
      accept_sound (strip_cr l) (strip_cr (until_newline rest)) u p (rw (e, parse_request) at h)
]

-- Whatever arrives, an accepted user name is not empty and has at most 64 bytes, and an accepted
-- password has at most 256.
read_request_sound :
    (reads : List ReadResult) (u p : Bytes)
    → read_request reads ≡ some (u, p)
    → (u ≢ []) × (length u ≤ 64) × (length p ≤ 256)
unfolding read_request
read_request_sound reads u p h = elim (Option-cases (read_input [] reads)) [
  | inl e ↦ absurd (cc (rw (e, parse_read) at h))
  | inr (input, e) ↦ parse_request_sound input u p (rw (e, parse_read) at h)
]
