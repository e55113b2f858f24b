-- ===== src/Greeter/Keys/Attempt.antt =====
-- What an attempt to log in does to the greeter's state: `attempt_login` of
-- greeter/zero-greeter-wayland.cpp.
use cardputer_zero_os.Base.{
  ◌≡◌, refl, ap, ◌∙◌, Bool, true, false, not, ◌&&◌, Option, none, some, List, [], ◌∷◌, ◌++◌, Bytes,
  if◌then◌else◌, if_both, get_elem?,
}
use cardputer_zero_os.Greeter.Users.{UserEntry}
use cardputer_zero_os.Greeter.Screen.{
  UiMode, Action, Greeter, Outside, next_buffer, render, render_into,
}
use cardputer_zero_os.Greeter.Keys.{after_login, start_login, login_as, attempt_login}

-- A login attempt of a known user: it asks for the login with what was typed and forgets the password;
-- the answer decides between the session and the login screen.
pub record IsAttempt (o : Outside) (g : Greeter) (user : UserEntry) (h : Greeter) : Type 0 where
  pub asked : h.actions ≡ g.actions ++ Action.log_in user.name g.password ∷ []
  pub password : h.password ≡ []
  pub message : h.message ≡ (o.log_in user.name g.password).1
  pub error : h.error ≡ not (o.log_in user.name g.password).0
  pub mode :
      h.mode ≡ (if (o.log_in user.name g.password).0 then UiMode.starting_session else UiMode.login)
  pub running : h.running ≡ not (o.log_in user.name g.password).0 && g.running

abbrev SameButScreen : Greeter → Greeter → Type 0
SameButScreen g h = (h.actions ≡ g.actions) × (h.password ≡ g.password) × (h.running ≡ g.running)

render_into-same : (g : Greeter) (o : Option (List Bool)) → SameButScreen g (render_into g o)
unfolding render_into
render_into-same g none = (refl, refl, refl)
render_into-same g (some bs) =
    if_both (SameButScreen g) g.configured (record g { buffers = bs; dirty = false }) g
      (refl, refl, refl) (refl, refl, refl)

-- The fields after a login, by its answer.
after_login-fields :
    (h : Greeter) (answer : Bool × Bytes)
    → ((after_login h answer).actions ≡ h.actions)
      × ((after_login h answer).password ≡ [])
      × ((after_login h answer).message ≡ answer.1)
      × ((after_login h answer).error ≡ not answer.0)
      × ((after_login h answer).mode ≡ (if answer.0 then UiMode.starting_session else UiMode.login))
      × ((after_login h answer).running ≡ not answer.0 && h.running)
unfolding after_login
after_login-fields h (true, message) = (refl, refl, refl, refl, refl, refl)
after_login-fields h (false, message) = (refl, refl, refl, refl, refl, refl)

login_as-IsAttempt :
    (o : Outside) (g h : Greeter) (user : UserEntry)
    → SameButScreen g h
    → IsAttempt o g user (login_as o h user)
unfolding login_as
login_as-IsAttempt o g h user (a, p, r) =
    let asked = h.actions ++ Action.log_in user.name h.password ∷ [] in
    let (fa, fp, fm, fe, fo, fr) =
      after_login-fields (record h { actions = asked }) (o.log_in user.name h.password) in
    let answer = λ (s : Bytes). o.log_in user.name s in
    record {
      asked = fa ∙ rw (a, p);
      password = fp;
      message = fm ∙ ap (λ s. (answer s).1) p;
      error = fe ∙ ap (λ s. not (answer s).0) p;
      mode = fo ∙ ap (λ s. if (answer s).0 then UiMode.starting_session else UiMode.login) p;
      running =
          fr ∙ ap (λ s. not (answer s).0 && h.running) p ∙ ap (◌&&◌ (not (answer g.password).0)) r;
    }

start_login-same : (g : Greeter) → SameButScreen g (start_login g)
unfolding start_login render
start_login-same g = render_into-same _ (next_buffer g.buffers)

attempt_login-at :
    (us : List UserEntry) (o : Outside) (g : Greeter) (user : UserEntry)
    → get_elem? us g.selected ≡ some user
    → IsAttempt o (record g { users = us }) user (attempt_login o (record g { users = us }))
unfolding attempt_login
attempt_login-at [] o g user e = cc
attempt_login-at (u ∷ us) o g user e =
    let h = record g { users = u ∷ us } in
    rw e (login_as-IsAttempt o h (start_login h) user (start_login-same h))

-- What `attempt_login` does for the selected user: it asks for one login, with that user's name and
-- what was typed, and forgets the password whatever the answer is; a success shows the session's
-- screen and stops the greeter, a failure goes back to the login screen with the error.
pub attempt_login-IsAttempt :
    (o : Outside) (g : Greeter) (user : UserEntry)
    → get_elem? g.users g.selected ≡ some user
    → IsAttempt o g user (attempt_login o g)
attempt_login-IsAttempt o g = attempt_login-at g.users o g

pub attempt_login-nobody :
    (us : List UserEntry) (o : Outside) (g : Greeter)
    → get_elem? us g.selected ≡ none
    → (attempt_login o (record g { users = us })).actions ≡ g.actions
unfolding attempt_login
attempt_login-nobody [] o g f = refl
attempt_login-nobody (u ∷ us) o g f = rw f (start_login-same (record g { users = u ∷ us })).0
