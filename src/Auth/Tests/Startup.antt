-- ===== src/Auth/Tests/Startup.antt =====
-- Starts with one old record, and with none.
use ncn_platform.Base.{◌≡◌, refl, true, false, List, [], ◌∷◌, Option, some, String}
use ncn_platform.Auth.Operator.{OperatorRecord}
use ncn_platform.Auth.Accounts.{promote_first_admin_if_none}
use ncn_platform.Auth.Login.{signed_in, handle_login}
use ncn_platform.Auth.Startup.{no_database, no_file, Drawn, read_operators, load_auth_store}
use ncn_platform.Auth.Startup.Bootstrap.{handle_login-bootstrap}
use ncn_platform.Auth.Tests.{person}
use ncn_platform.Auth.Tests.SignIn.{gate, ann_login}

-- The records stand for the file; each code has the name of its operator for its hash.
abbrev read : List (OperatorRecord Unit) → Option (List (OperatorRecord Unit))
read l = some l

abbrev drawn : Drawn
drawn = record {
  password_hash = some "secret12";
  totp_secret = some "k";
  code_hash = λ u n. some u;
}

abbrev ten : String → List String
ten s = s ∷ s ∷ s ∷ s ∷ s ∷ s ∷ s ∷ s ∷ s ∷ s ∷ []

-- From before the recovery codes and the invitations.
abbrev old : OperatorRecord Unit
old = record (person "ann" "admin") { recovery_codes = []; approved = false; approved_at = "" }

abbrev renewed : OperatorRecord Unit
renewed = record old { recovery_codes = ten "ann"; approved = true; approved_at = "t5" }

abbrev first : OperatorRecord Unit
first = record (person "NOC" "operator") {
  created_at = "t5";
  totp_secret = "k";
  recovery_codes = ten "NOC";
  approved = false;
  approved_at = "";
}

none_found : read_operators read no_database no_file ≡ some ([], false)
unfolding read_operators
none_found = refl

start_with_none :
    load_auth_store read true true "t5" drawn no_database no_file ≡ some (("NOC", first) ∷ [])
unfolding load_auth_store read_operators
start_with_none = refl

handle_login-bootstrap_example : ¬ (
    (handle_login gate
      (record ann_login { username = "NOC" })
      (promote_first_admin_if_none (("NOC", first) ∷ []))).1
    ≡ signed_in first "token")
handle_login-bootstrap_example =
    handle_login-bootstrap read gate true true false "t5" drawn no_database no_file
      (("NOC", first) ∷ []) none_found start_with_none (record ann_login { username = "NOC" }) first
      "token"
