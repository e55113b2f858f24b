-- ===== src/Agent/Clients/Lines.antt =====
-- How commands are cut out of a client's byte stream, and how its output leaves.
use cardputer_zero_os.Base.{
  strip_cr, ℕ, zero, suc, ◌<◌, ◌≤◌, ◌≢◌, ltb, false, ◌≡◌, refl, ap, sym, ◌∙◌, none, some, List, [],
  ◌∷◌, ◌++◌, Bytes, append_assoc, is_empty, length, length-append, take, drop, take-append-drop,
  find_cut, find_cut-some, find_cut-none, Bool-cases, Option-cases, inl, inr, arith,
}
use cardputer_zero_os.Agent.Wire.{newline}
use cardputer_zero_os.Agent.State.{Client, Agent}
use cardputer_zero_os.Agent.Commands.{handle_command}
use cardputer_zero_os.Agent.Commands.Frame.{with_input, on_client, handle_command-with_input}
use cardputer_zero_os.Agent.Stream.{
  lines, length-lines, lines-Lacks, lines-line, lines-append, continue, first_line,
}
use cardputer_zero_os.Agent.Clients.{
  max_line, serve_loop, serve, ReadResult, read_client, WriteResult, flush_client,
}

-- What the kernel took and what is still queued spell the queued output, in order, on every path.
pub flush_client-output :
    (client : Client) (results : List WriteResult)
    → let (c, sent, kept) = flush_client client results in sent ++ c.output ≡ client.output
unfolding flush_client
flush_client-output client [] = refl
flush_client-output client (WriteResult.wrote zero ∷ more) = refl
flush_client-output client (WriteResult.wrote (suc n) ∷ more) =
    elim (Bool-cases (is_empty client.output)) [
      | inl e ↦ rw e refl
      | inr e ↦ rw e (
          append_assoc (take (suc n) client.output) _ _
          ∙ ap (◌++◌ (take (suc n) client.output))
              (flush_client-output (record client { output = drop (suc n) client.output }) more)
          ∙ take-append-drop (suc n) client.output)
    ]
flush_client-output client (WriteResult.interrupted ∷ more) = flush_client-output client more
flush_client-output client (WriteResult.would_block ∷ more) = refl
flush_client-output client (WriteResult.failed ∷ more) = refl

-- The commands of complete lines, in order.
pub run_lines : Agent → Client → List Bytes → Agent × Client
run_lines a c [] = (a, c)
run_lines a c (l ∷ ls) = let (b, d) = handle_command a c (strip_cr l) in run_lines b d ls

-- The agent's answer to a text whose complete lines and rest are given.
abbrev pub answer : Agent → Client → List Bytes × Bytes → Agent × Client
answer a c (ls, rest) = run_lines a (with_input rest c) ls

run_lines-with_input :
    (i : Bytes) (a : Agent) (c : Client) (ls : List Bytes)
    → run_lines a (with_input i c) ls ≡ on_client (with_input i) (run_lines a c ls)
unfolding run_lines
run_lines-with_input i a c [] = refl
run_lines-with_input i a c (l ∷ ls) = rw (handle_command-with_input i a c (strip_cr l)) (
    run_lines-with_input i (handle_command a c (strip_cr l)).0 (handle_command a c (strip_cr l)).1
      ls)

serve_loop-none :
    (fuel : ℕ) (a : Agent) (c : Client)
    → find_cut newline c.input ≡ none
    → serve_loop (suc fuel) a c ≡ (a, c)
unfolding serve_loop
serve_loop-none fuel a c e = rw (e, serve_loop)

serve_loop-some :
    (fuel : ℕ) (a : Agent) (c : Client) (l rest : Bytes)
    → find_cut newline c.input ≡ some (l, rest)
    → (let (b, d) = handle_command a c (strip_cr l) in
        serve_loop (suc fuel) a c ≡ serve_loop fuel b (with_input rest d))
unfolding serve_loop
serve_loop-some fuel a c l rest e =
    rw (e, serve_loop) (rw (handle_command-with_input rest a c (strip_cr l)))

answer_line :
    (a : Agent) (c : Client) (l : Bytes) (r : List Bytes × Bytes)
    → (let (b, d) = handle_command a c (strip_cr l) in answer b d r ≡ answer a c (first_line l r))
unfolding run_lines
answer_line a c l (ls, rest) = rw (handle_command-with_input rest a c (strip_cr l))

serve_loop-answer :
    (fuel : ℕ) (a : Agent) (c : Client)
    → length c.input < fuel
    → serve_loop fuel a c ≡ answer a c (lines c.input)
serve_loop-answer zero a c lt = elim lt [ ]
serve_loop-answer (suc fuel) a c lt = elim (Option-cases (find_cut newline c.input)) [
  | inl e ↦
      serve_loop-none fuel a c e
      ∙ sym (
          ap (answer a c) (lines-Lacks c.input (find_cut-none newline c.input e))
          ∙ (unfold run_lines in refl))
  | inr ((l, rest), e) ↦
      let (spelled, lacks) = find_cut-some newline c.input l rest e in
      let (b, d) = handle_command a c (strip_cr l) in
      serve_loop-some fuel a c l rest e
      ∙ serve_loop-answer fuel b (with_input rest d)
          (omega (arith, ap length spelled, length-append l (newline ∷ rest)))
      ∙ answer_line a c l (lines rest)
      ∙ ap (answer a c) (sym (ap lines spelled ∙ lines-line l rest lacks))
]

-- The reading loop runs the commands of the complete lines of the input, in order, and leaves the
-- unfinished line as the input.
serve-answer : (a : Agent) (c : Client) → serve a c ≡ answer a c (lines c.input)
unfolding serve
serve-answer a c = serve_loop-answer (suc (length c.input)) a c (omega arith)

abbrev pub receive : Bytes → Client → Client
receive t c = record c { input = c.input ++ t }

run_lines-append :
    (a : Agent) (c : Client) (ls ms : List Bytes)
    → run_lines a c (ls ++ ms) ≡ (let (b, d) = run_lines a c ls in run_lines b d ms)
unfolding run_lines
run_lines-append a c [] ms = refl
run_lines-append a c (l ∷ ls) ms =
    let (b, d) = handle_command a c (strip_cr l) in run_lines-append b d ls ms

-- To serve one answer's client on with more input is to answer the continued lines.
answer-continue :
    (a : Agent) (c : Client) (r : List Bytes × Bytes) (t : Bytes)
    → (let (b, d) = answer a c r in answer b (receive t d) (lines (receive t d).input))
      ≡ answer a c (continue r t)
answer-continue a c (ls, rest) t =
    let (more, last) = lines (rest ++ t) in
    rw (
      run_lines-with_input rest a c ls,
      run_lines-append a (with_input last c) ls more,
      run_lines-with_input last a c ls,
    )

-- Input that comes in two pieces, each served on arrival, is answered as if it had come at once.
serve-receive :
    (a : Agent) (c : Client) (t : Bytes)
    → (let (b, d) = serve a c in serve b (receive t d)) ≡ serve a (receive t c)
serve-receive a c t =
    ap (λ (r : Agent × Client). serve r.0 (receive t r.1)) (serve-answer a c)
    ∙ serve-answer _ _
    ∙ answer-continue a c (lines c.input) t
    ∙ ap (answer a c) (sym (lines-append c.input t))
    ∙ sym (serve-answer a (receive t c))

pub serve-input : (a : Agent) (c : Client) → (serve a c).1.input ≡ (lines c.input).1
serve-input a c =
    rw (serve-answer a c, run_lines-with_input (lines c.input).1 a c (lines c.input).0)

-- One piece that the limit leaves room for is served.
read_client_got :
    (a : Agent) (c : Client) (t : Bytes) (more : List ReadResult)
    → t ≢ []
    → length (c.input ++ t) ≤ max_line
    → (let (b, d) = serve a (receive t c) in
        read_client a c (ReadResult.got t ∷ more) ≡ read_client b d more)
unfolding read_client
read_client_got a c [] more h fits = absurd (h refl)
read_client_got a c (x ∷ xs) more h fits =
    let small : ltb max_line (length (c.input ++ x ∷ xs)) ≡ false = ground arith in rw small refl

served_fits :
    (a : Agent) (c : Client) (t u : Bytes)
    → length (c.input ++ (t ++ u)) ≤ max_line
    → length ((serve a (receive t c)).1.input ++ u) ≤ max_line
served_fits a c t u fits = rw (serve-input a (receive t c)) (
    omega (
      arith,
      fits,
      length-lines (c.input ++ t),
      length-append (lines (c.input ++ t)).1 u,
      length-append c.input t,
      length-append c.input (t ++ u),
      length-append t u,
    ))

-- It makes no difference in which pieces `read` gives a client's bytes: two pieces, neither of them
-- empty, are answered as the one that they make together, and what is read after them too, if that one
-- with the unfinished line before it has at most `kMaxLine` bytes.
pub read_client-pieces :
    (a : Agent) (c : Client) (t u : Bytes) (more : List ReadResult)
    → t ≢ []
    → u ≢ []
    → length (c.input ++ (t ++ u)) ≤ max_line
    → read_client a c (ReadResult.got t ∷ ReadResult.got u ∷ more)
      ≡ read_client a c (ReadResult.got (t ++ u) ∷ more)
read_client-pieces a c t u more ht hu fits =
    let (b, d) = serve a (receive t c) in
    let first : length (c.input ++ t) ≤ max_line =
      omega
        (arith, fits, length-append c.input t, length-append c.input (t ++ u), length-append t u) in
    read_client_got a c t (ReadResult.got u ∷ more) ht first
    ∙ read_client_got b d u more hu (served_fits a c t u fits)
    ∙ ap (λ (r : Agent × Client). read_client r.0 r.1 more)
        (serve-receive a (receive t c) u
          ∙ ap (λ i. serve a (with_input i c)) (append_assoc c.input t u))
    ∙ sym (read_client_got a c (t ++ u) more (joined t ht) fits)
  where
    joined : (s : Bytes) → s ≢ [] → s ++ u ≢ []
    joined [] h = absurd (h refl)
    joined (x ∷ xs) h = λ e. cc
