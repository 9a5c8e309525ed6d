-- ===== src/Auth/Totp.antt =====
-- core-console/backend/auth.go: the one-time codes of RFC 6238. HMAC-SHA1, the base32 decoder and
-- `strings.ToUpper` are functions of a record; bytes are numbers.
pub mod Window
use Prim.Native.Char.{code}
use ncn_platform.Base.{
  ℕ, zero, suc, ◌+◌, ◌-◌, ◌*◌, ◌/◌, ◌%◌, ◌^◌, ◌==◌, Bool, true, false, not, ◌||◌, List, [], ◌∷◌,
  ◌++◌, Option, none, some, String, str_eq, text_append, if◌then◌else◌, length, drop, get_elem?,
  byte_length, trim_space, itoa, any,
}

pub record TotpCrypto : Type 0 where
  pub upper : String → String
  pub decode32 : String → Option (List ℕ)
  pub mac_sha1 : List ℕ → List ℕ → List ℕ

-- `binary.BigEndian.PutUint64`: as many bytes as asked for.
big_endian : ℕ → ℕ → List ℕ
big_endian zero n = []
big_endian (suc k) n = (n / 256 ^ k) % 256 ∷ big_endian k n

byte_at : List ℕ → ℕ → ℕ
byte_at h i = or_zero (get_elem? h i)
  where
    or_zero : Option ℕ → ℕ
    or_zero none = 0
    or_zero (some x) = x

-- `fmt.Sprintf("%06d", n)`.
six_digits : ℕ → String
six_digits n = pad (6 - byte_length (itoa n)) (itoa n)
  where
    pad : ℕ → String → String
    pad zero s = s
    pad (suc k) s = text_append "0" (pad k s)

-- `strings.ReplaceAll(code, " ", "")`.
without_spaces : String → String
without_spaces String.[] = ""
without_spaces (String.◌∷◌ c s) =
    let rest = without_spaces s in if code c == 32 then rest else String.◌∷◌ c rest

unfoldable pub clean_code : String → String
unfolding without_spaces
clean_code s = trim_space (without_spaces s)

module _ (t : TotpCrypto) where
  -- The four bytes at the offset that the last byte's low half gives, less their top bit.
  truncated : List ℕ → ℕ
  unfolding byte_at
  truncated h =
      let o = byte_at h (length h - 1) % 16 in
      (byte_at h o * 2 ^ 24
        + (byte_at h (o + 1) * 2 ^ 16 + (byte_at h (o + 2) * 2 ^ 8 + byte_at h (o + 3))))
      % 2 ^ 31

  -- The counter is 64 bits wide: the step before 0 is 2^64 - 1.
  unfoldable pub hotp : List ℕ → ℕ → String
  unfolding truncated big_endian six_digits
  hotp key counter =
      six_digits (truncated (t.mac_sha1 key (big_endian 8 (counter % 2 ^ 64))) % 1000000)

  code_matches : List ℕ → String → ℕ → Bool
  code_matches key code counter =
      str_eq (hotp key (counter + (2 ^ 64 - 1))) code
      || (str_eq (hotp key counter) code || str_eq (hotp key (counter + 1)) code)

  check_key : Option (List ℕ) → String → ℕ → Bool
  unfolding code_matches
  check_key none code now = false
  check_key (some key) code now =
      if length key == 0 then false else code_matches key code (now / 30)

  unfoldable pub verify_totp : String → String → ℕ → Bool
  unfolding check_key
  verify_totp secret code now =
      let cleaned = clean_code code in
      if not (byte_length cleaned == 6)
      then false
      else check_key (t.decode32 (t.upper secret)) cleaned now
