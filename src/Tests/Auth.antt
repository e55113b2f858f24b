-- ===== src/Tests/Auth.antt =====
-- greeter/zero-greeter-auth.cpp: a request in two pieces, conversations with PAM, and whole runs of
-- the helper.
use cardputer_zero_os.Base.{
  ◌≡◌, refl, true, false, Option, none, some, List, [], ◌∷◌, ◌++◌, codes, map, length, arith,
  str_eq, starts_with, contains, find_cut, strip_cr,
}
use cardputer_zero_os.Accounts.{Passwd}
use cardputer_zero_os.Auth.Capability
use cardputer_zero_os.Auth.Capability.{user_is_login_capable, Caller, caller_is_allowed}
use cardputer_zero_os.Auth.Request.{ReadResult, read_request}
use cardputer_zero_os.Auth.Request.RoundTrip.{IsSendable, read_request-request_text}
use cardputer_zero_os.Auth.Conversation.{Status, Style, or_null, pam_conv_callback}
use cardputer_zero_os.Auth.Conversation.Answers.{
  answer, pam_conv_callback-answer, pam_conv_callback-leaked, pam_conv_callback-null,
}
use cardputer_zero_os.Auth.Helper.{
  Pam, exited, run_and_wait, World, helper_main, session_args, authenticate_user,
}
use cardputer_zero_os.Auth.Helper.Outcomes.{IsAuthorized, helper_main-ran}
use cardputer_zero_os.Tests.{text-Lacks}

abbrev pub ana : Passwd
ana = record {
  pw_name = some (codes "ana");
  pw_uid = 1000;
  pw_dir = some (codes "/home/ana");
  pw_shell = some (codes "/bin/bash");
}

abbrev pub backup : Passwd
backup = record {
  pw_name = some (codes "backup");
  pw_uid = 34;
  pw_dir = some (codes "/var/backups");
  pw_shell = some (codes "/usr/sbin/nologin");
}

abbrev pub accepting : Pam
accepting = record {
  start = λ u p. true;
  authenticate = λ u p. str_eq p (codes "pw");
  acct_mgmt = λ u p. true;
}

abbrev pub request_reads : List ReadResult
request_reads = ReadResult.got (codes "an") ∷ ReadResult.got (codes "a\npw\n") ∷ []

abbrev pub world : World
world = record {
  caller = record {
    euid = 0;
    uid = 33;
    entry = some (record backup { pw_name = some (codes "_greetd") });
  };
  set_ids = true;
  reads = request_reads;
  getpwnam = λ name. some ana;
  pam = accepting;
  time = 7;
  child = λ args. exited 0;
}

nologin_refused : user_is_login_capable (some backup) ≡ false
unfolding user_is_login_capable
nologin_refused = refl

pub sendable : IsSendable (codes "ana") (codes "pw")
sendable = record {
  one_line = (text-Lacks 10 (codes "ana") refl, text-Lacks 10 (codes "pw") refl);
  no_cr = ((λ p. cc), (λ p. cc));
  named = λ p. cc;
  fits = (omega arith, omega arith);
}

read_request-request_text_example : read_request request_reads ≡ some (codes "ana", codes "pw")
read_request-request_text_example =
    read_request-request_text (codes "ana") (codes "pw") (codes "an" ∷ codes "a\npw\n" ∷ [])
      sendable ((λ p. cc), ((λ p. cc), tt)) refl

abbrev messages : List (Option Style)
messages = some Style.prompt_echo_off ∷ some Style.text_info ∷ []

pam_conv_callback-answer_example :
    (ms : List (Option Style)) × (some messages ≡ some ms)
    × ((pam_conv_callback true (λ i. true) (some (codes "pw")) (some messages) true).resp
        ≡ some (map (answer (codes "pw")) ms))
unfolding pam_conv_callback or_null
pam_conv_callback-answer_example =
    pam_conv_callback-answer true (λ i. true) (some (codes "pw")) (some messages) true refl

pam_conv_callback-leaked_example :
    (pam_conv_callback true
      (λ i. true)
      (some (codes "pw"))
      (some (messages ++ some Style.unknown ∷ []))
      true).leaked
    ≡ []
pam_conv_callback-leaked_example =
    pam_conv_callback-leaked true (λ i. true) (some (codes "pw"))
      (messages ++ some Style.unknown ∷ []) true ((λ p. cc), ((λ p. cc), ((λ p. cc), tt)))

pam_conv_callback-null_example :
    let r =
      pam_conv_callback true
        (λ i. true)
        (some (codes "pw"))
        (some (some Style.prompt_echo_on ∷ none ∷ []))
        true in
    (r.status ≡ Status.conv_err) × (r.resp ≡ none) × (length r.leaked ≡ 1)
pam_conv_callback-null_example =
    pam_conv_callback-null (λ i. true) (some (codes "pw")) Style.prompt_echo_on [] [] (λ k. refl)
      (refl, tt)

helper_main-ran_example :
    (pw : Passwd) × IsAuthorized world pw × (session_args ana 7 ≡ session_args pw 7)
unfolding helper_main caller_is_allowed str_eq read_request find_cut strip_cr user_is_login_capable
    starts_with Capability.shell_is_login_capable contains authenticate_user run_and_wait
helper_main-ran_example = helper_main-ran world (session_args ana 7) refl
