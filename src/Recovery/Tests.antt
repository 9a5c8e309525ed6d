-- ===== src/Recovery/Tests.antt =====
-- A recovery link of one operator, used twice.
use ncn_platform.Base.{ℕ, ◌≡◌, ◌≢◌, refl, arith, true, [], ◌∷◌, Option, some, String, pos, codes}
use ncn_platform.Base.Dict.{lookup}
use ncn_platform.Recovery.Token.{Crypto, verify_with, load_key}
use ncn_platform.Recovery.Nonces.{seen}
use ncn_platform.Recovery.Submit.{Service, Request, done, submit, submit_all}
use ncn_platform.Recovery.Submit.Replay.{submit_once}

-- The payload is signed by itself.
abbrev plain : Crypto
plain = record {
  decode = λ text. some (codes text);
  mac = λ key text. codes text;
  parse = λ bytes. some (record { user = "ops"; exp = pos 1000; nonce = "n1" });
}

abbrev rot : String → Option String
rot text = some text

abbrev service : Service
service = record { key = 7 ∷ []; used = []; passwords = ("ops", "old") ∷ [] }

abbrev reset : ℕ → Request
reset at = record {
  token = "rcv-p.p";
  new_password = "longenough";
  key_file = some (7 ∷ []);
  checked_at = at;
  recorded_at = at;
  persisted = true;
}

first_succeeds : (submit plain rot (reset 500) service).1 ≡ done "ops"
unfolding submit verify_with load_key seen lookup
first_succeeds = refl

submit_once_example :
    (submit plain rot
      (reset 900)
      (submit_all plain rot (reset 600 ∷ []) (submit plain rot (reset 500) service).0)).1
    ≢ done "ops"
submit_once_example =
    submit_once plain rot (reset 500) (reset 900) (reset 600 ∷ []) service "ops" "ops" (omega arith)
      (omega arith) refl first_succeeds
