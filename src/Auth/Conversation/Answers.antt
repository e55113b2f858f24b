-- ===== src/Auth/Conversation/Answers.antt =====
-- What `pam_conv_callback` answers, and which copies of the password it leaves behind.
use cardputer_zero_os.Base.{
  ℕ, zero, suc, ◌+◌, ◌≡◌, ◌≢◌, refl, ap, sym, Bool, true, false, ◌||◌, if_both, Option, none, some,
  List, [], ◌∷◌, ◌++◌, Bytes, if◌then◌else◌, c_str, append_assoc, append-nil, length, length-append,
  take, drop, All, arith, map,
}
use cardputer_zero_os.Auth.Conversation.{
  Style, Status, Conversed, copies, stop, or_null, is_prompt, is_notice, converse_from,
  pam_conv_callback,
}

-- The response to a message: the password to a prompt, nothing to a notice.
abbrev pub answer : Bytes → Option Style → Option Bytes
answer password none = none
answer password (some style) = if is_prompt style then some (c_str password) else none

take_all {ℓ} : {A : Type ℓ} (xs : List A) (n : ℕ) → length xs ≡ n → take n xs ≡ xs
take_all [] zero h = refl
take_all [] (suc n) h = refl
take_all (x ∷ xs) zero h = absurd (omega arith)
take_all (x ∷ xs) (suc n) h = rw (take_all xs n (omega arith))

drop_all {ℓ} : {A : Type ℓ} (xs : List A) → drop (length xs) xs ≡ []
drop_all [] = refl
drop_all (x ∷ xs) = drop_all xs

module _ (dup : ℕ → Bool) (password : Bytes) where
  freed_all :
      (status : Status) (i : ℕ) (done : List (Option Bytes))
      → length done ≡ i
      → (stop status (copies done) (copies (take i done))).leaked ≡ []
  unfolding stop
  freed_all status i done h = rw (take_all done i h) (drop_all (copies done))

  converse_from-leaked :
      (i : ℕ) (done : List (Option Bytes)) (msgs : List (Option Style))
      → length done ≡ i
      → All (λ m. m ≢ none) msgs
      → (converse_from dup password i done msgs).leaked ≡ []
  unfolding converse_from
  converse_from-leaked i done [] e h = refl
  converse_from-leaked i done (none ∷ msgs) e (hm, h) = absurd (hm refl)
  converse_from-leaked i done (some style ∷ msgs) e (hm, h) =
      let prompted =
        converse_from-leaked (i + 1) (done ++ some (c_str password) ∷ []) msgs
          (omega (arith, length-append done (some (c_str password) ∷ []))) h in
      let noted =
        converse_from-leaked (i + 1) (done ++ none ∷ []) msgs
          (omega (arith, length-append done (none ∷ []))) h in
      let clean = λ (r : Conversed). r.leaked ≡ [] in
      if_both clean (is_prompt style) _ _
        (if_both clean (dup i) _ _ prompted (freed_all Status.buf_err i done e))
        (if_both clean (is_notice style) _ _ noted (freed_all Status.conv_err i done e))

  converse_from-answer :
      (i : ℕ) (done : List (Option Bytes)) (msgs : List (Option Style))
      → (converse_from dup password i done msgs).status ≡ Status.success
      → (converse_from dup password i done msgs).resp ≡ some (done ++ map (answer password) msgs)
  unfolding converse_from
  converse_from-answer i done [] h = ap some (sym (append-nil done))
  converse_from-answer i done (none ∷ msgs) h = cc
  converse_from-answer i done (some style ∷ msgs) h = ground (
    arith,
    converse_from-answer (i + 1) (done ++ some (c_str password) ∷ []) msgs,
    converse_from-answer (i + 1) (done ++ none ∷ []) msgs,
    append_assoc done (some (c_str password) ∷ []) (map (answer password) msgs),
    append_assoc done (none ∷ []) (map (answer password) msgs),
  )

-- On success there is one response to each message: the password, up to a NUL, to every prompt, and
-- none to a notice.
pub pam_conv_callback-answer :
    (callocs : Bool) (dup : ℕ → Bool) (appdata : Option Bytes) (msgs : Option (List (Option Style)))
    (resp : Bool)
    → (pam_conv_callback callocs dup appdata msgs resp).status ≡ Status.success
    → (ms : List (Option Style)) × (msgs ≡ some ms)
      × ((pam_conv_callback callocs dup appdata msgs resp).resp
          ≡ some (map (answer (or_null appdata)) ms))
unfolding pam_conv_callback
pam_conv_callback-answer callocs dup appdata none resp h = absurd (cc)
pam_conv_callback-answer callocs dup appdata (some []) resp h = absurd (cc)
pam_conv_callback-answer callocs dup appdata (some (m ∷ msgs)) false h = absurd (cc)
pam_conv_callback-answer callocs dup appdata (some (m ∷ msgs)) true h =
    let all = converse_from-answer dup (or_null appdata) 0 [] (m ∷ msgs) in
    (m ∷ msgs, refl, ground (arith, all))

-- Where no message is a null pointer, no copy of the password is left on the heap, whatever
-- allocation fails and whatever styles the messages have.
pub pam_conv_callback-leaked :
    (callocs : Bool) (dup : ℕ → Bool) (appdata : Option Bytes) (ms : List (Option Style))
    (resp : Bool)
    → All (λ m. m ≢ none) ms
    → (pam_conv_callback callocs dup appdata (some ms) resp).leaked ≡ []
unfolding pam_conv_callback
pam_conv_callback-leaked callocs dup appdata [] resp h = refl
pam_conv_callback-leaked callocs dup appdata (m ∷ ms) false h = refl
pam_conv_callback-leaked callocs dup appdata (m ∷ ms) true h =
    if_both (λ (r : Conversed). r.leaked ≡ []) callocs _ _
      (converse_from-leaked dup (or_null appdata) 0 [] (m ∷ ms) refl h) refl

-- How many prompts there are.
abbrev pub prompts : List Style → ℕ
prompts [] = 0
prompts (s ∷ ss) = if is_prompt s then suc (prompts ss) else prompts ss

abbrev pub is_known : Style → Bool
is_known s = is_prompt s || is_notice s

length-copies-append :
    (rs : List (Option Bytes)) (r : Option Bytes)
    → length (copies (rs ++ r ∷ [])) ≡ length (copies rs) + length (copies (r ∷ []))
unfolding copies
length-copies-append [] r = omega arith
length-copies-append (none ∷ rs) r = length-copies-append rs r
length-copies-append (some x ∷ rs) r = omega (arith, length-copies-append rs r)

converse_from-null :
    (dup : ℕ → Bool) (password : Bytes) (i : ℕ) (done : List (Option Bytes)) (styles : List Style)
    (msgs : List (Option Style))
    → ((k : ℕ) → dup k ≡ true)
    → All (λ s. is_known s ≡ true) styles
    → let r = converse_from dup password i done (map some styles ++ none ∷ msgs) in
      (r.status ≡ Status.conv_err)
      × (r.resp ≡ none)
      × (length r.leaked ≡ length (copies done) + prompts styles)
unfolding converse_from copies
converse_from-null dup password i done [] msgs ok h = (refl, refl, omega arith)
converse_from-null dup password i done (s ∷ styles) msgs ok (hs, h) = ground (
  arith,
  ok i,
  converse_from-null dup password (i + 1) (done ++ some (c_str password) ∷ []) styles msgs ok h,
  converse_from-null dup password (i + 1) (done ++ none ∷ []) styles msgs ok h,
  length-copies-append done (some (c_str password)),
  length-copies-append done none,
)

-- Behind one or more messages of known styles, a null message is refused with PAM_CONV_ERR and no
-- responses, and without freeing the copies made for the prompts before it: each of them stays on the
-- heap, if every allocation up to there succeeds.
pub pam_conv_callback-null :
    (dup : ℕ → Bool) (appdata : Option Bytes) (s : Style) (styles : List Style)
    (msgs : List (Option Style))
    → ((k : ℕ) → dup k ≡ true)
    → All (λ t. is_known t ≡ true) (s ∷ styles)
    → let r =
        pam_conv_callback true dup appdata (some (map some (s ∷ styles) ++ none ∷ msgs)) true in
      (r.status ≡ Status.conv_err) × (r.resp ≡ none) × (length r.leaked ≡ prompts (s ∷ styles))
unfolding pam_conv_callback copies
pam_conv_callback-null dup appdata s styles msgs ok h =
    let (status, resp, leaked) =
      converse_from-null dup (or_null appdata) 0 [] (s ∷ styles) msgs ok h in
    (status, resp, omega (arith, leaked))
