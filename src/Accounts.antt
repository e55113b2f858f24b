-- ===== src/Accounts.antt =====
-- `struct passwd` of <pwd.h>, as far as the greeter and its helper read it. A null pointer is none.
use cardputer_zero_os.Base.{ℕ, Option, Bytes}

pub record Passwd : Type 0 where
  pub pw_name : Option Bytes
  pub pw_uid : ℕ
  pub pw_dir : Option Bytes
  pub pw_shell : Option Bytes
