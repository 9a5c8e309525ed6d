-- ===== src/Lb/Config.antt =====
-- core-console/lb/main.go: the configuration, its defaults and `loadConfig`.
use ncn_platform.Base.{
  ℕ, suc, ◌<◌, inl, inr, Bool-cases, ◌≡◌, refl, Bool, true, false, not, ◌&&◌, List, [], ◌∷◌, Option,
  none, some, arith, String, str_eq, if◌then◌else◌, ℤ, pos, leb_ℤ, to_ℕ,
}

pub record Origin : Type 0 where
  pub name : String
  pub url : String
  pub alt_url : String
  pub host : String
  pub priority : ℤ

pub record Config : Type 0 where
  pub mode : String
  pub origins : List Origin
  pub interval_secs : ℤ
  pub timeout_secs : ℤ
  pub unhealthy_threshold : ℤ
  pub healthy_threshold : ℤ
  pub failover_script : String
  pub status_addr : String

pub default_config : Config
default_config = record {
  mode = "observe";
  origins =
      record {
        name = "ctrl-01";
        url = "https://[2001:db8:53::1]/api/v1/health";
        alt_url = "";
        host = "admin.example.com";
        priority = pos 1;
      }
      ∷ record {
        name = "pop-04";
        url = "https://[2001:db8:51::2]/api/v1/health";
        alt_url = "";
        host = "admin.example.com";
        priority = pos 2;
      }
      ∷ [];
  interval_secs = pos 10;
  timeout_secs = pos 5;
  unhealthy_threshold = pos 3;
  healthy_threshold = pos 2;
  failover_script = "/etc/ncn-lb/failover.sh";
  status_addr = ":8090";
}

-- What reading the file gives: it is absent, its JSON is refused, or the decoder has laid its
-- fields over the defaults.
pub data ConfigFile : Type 0 where
  absent : ConfigFile
  malformed : ConfigFile
  parsed : Config → ConfigFile

-- What `os.Stat` says of a path that exists.
pub record FileInfo : Type 0 where
  pub is_dir : Bool
  pub executable : Bool

abbrev pub positive_or : ℤ → ℤ → ℤ
positive_or x d = if leb_ℤ x 0 then d else x

abbrev pub text_or : String → String → String
text_or s d = if str_eq s "" then d else s

abbrev pub runnable : Option FileInfo → Bool
runnable none = false
runnable (some fi) = not fi.is_dir && fi.executable

-- The checks on a decoded configuration, in the source's order.
fill : Config → Config
fill c = record c {
  mode = text_or c.mode "observe";
  interval_secs = positive_or c.interval_secs (pos 10);
  timeout_secs = positive_or c.timeout_secs (pos 5);
  unhealthy_threshold = positive_or c.unhealthy_threshold (pos 3);
  healthy_threshold = positive_or c.healthy_threshold (pos 2);
  status_addr = text_or c.status_addr ":8090";
}

-- Armed mode without a runnable failover script is turned into observe mode.
disarm : (String → Option FileInfo) → Config → Config
disarm stat c =
    if str_eq c.mode "armed"
    then if runnable (stat c.failover_script) then c else record c { mode = "observe" }
    else c

pub load_config : (String → Option FileInfo) → ConfigFile → Config
unfolding fill disarm
load_config stat absent = default_config
load_config stat malformed = default_config
load_config stat (parsed c) = disarm stat (fill c)

pub record IsValid (stat : String → Option FileInfo) (c : Config) : Type 0 where
  pub interval_pos : 0 < to_ℕ c.interval_secs
  pub timeout_pos : 0 < to_ℕ c.timeout_secs
  pub unhealthy_pos : 0 < to_ℕ c.unhealthy_threshold
  pub healthy_pos : 0 < to_ℕ c.healthy_threshold
  pub has_mode : str_eq c.mode "" ≡ false
  pub has_addr : str_eq c.status_addr "" ≡ false
  pub armed_runnable : str_eq c.mode "armed" ≡ true → runnable (stat c.failover_script) ≡ true

text_or-ne-empty : (s d : String) → str_eq d "" ≡ false → str_eq (text_or s d) "" ≡ false
text_or-ne-empty s d h = elim (Bool-cases (str_eq s "")) [ inl e ↦ rw e h | inr e ↦ rw e e ]

positive_or-pos : (x : ℤ) (n : ℕ) → 0 < to_ℕ (positive_or x (pos (suc n)))
positive_or-pos x n = ground arith

-- What `fill` alone establishes.
record IsFilled (c : Config) : Type 0 where
  interval_pos : 0 < to_ℕ c.interval_secs
  timeout_pos : 0 < to_ℕ c.timeout_secs
  unhealthy_pos : 0 < to_ℕ c.unhealthy_threshold
  healthy_pos : 0 < to_ℕ c.healthy_threshold
  has_mode : str_eq c.mode "" ≡ false
  has_addr : str_eq c.status_addr "" ≡ false

fill-IsFilled : (c : Config) → IsFilled (fill c)
unfolding fill
fill-IsFilled c = record {
  interval_pos = positive_or-pos c.interval_secs 9;
  timeout_pos = positive_or-pos c.timeout_secs 4;
  unhealthy_pos = positive_or-pos c.unhealthy_threshold 2;
  healthy_pos = positive_or-pos c.healthy_threshold 1;
  has_mode = text_or-ne-empty c.mode "observe" refl;
  has_addr = text_or-ne-empty c.status_addr ":8090" refl;
}

IsFilled-IsValid :
    (stat : String → Option FileInfo) (c : Config)
    → IsFilled c
    → (str_eq c.mode "armed" ≡ true → runnable (stat c.failover_script) ≡ true)
    → IsValid stat c
IsFilled-IsValid stat c f h = record {
  interval_pos = f.interval_pos;
  timeout_pos = f.timeout_pos;
  unhealthy_pos = f.unhealthy_pos;
  healthy_pos = f.healthy_pos;
  has_mode = f.has_mode;
  has_addr = f.has_addr;
  armed_runnable = h;
}

disarm-IsValid :
    (stat : String → Option FileInfo) (c : Config) → IsFilled c → IsValid stat (disarm stat c)
unfolding disarm
disarm-IsValid stat c f = elim (Bool-cases (str_eq c.mode "armed")) [
  | inr e ↦ rw e (IsFilled-IsValid stat c f (λ h. cc))
  | inl e ↦ elim (Bool-cases (runnable (stat c.failover_script))) [
    | inl r ↦ rw e (rw r (IsFilled-IsValid stat c f (λ _. r)))
    | inr r ↦ rw e (
        rw r (
          IsFilled-IsValid stat (record c { mode = "observe" })
            (record {
              interval_pos = f.interval_pos;
              timeout_pos = f.timeout_pos;
              unhealthy_pos = f.unhealthy_pos;
              healthy_pos = f.healthy_pos;
              has_mode = refl;
              has_addr = f.has_addr;
            })
            (λ (h : str_eq "observe" "armed" ≡ true). cc)))
  ]
]

default_config-IsValid : (stat : String → Option FileInfo) → IsValid stat default_config
unfolding default_config
default_config-IsValid stat = record {
  interval_pos = omega arith;
  timeout_pos = omega arith;
  unhealthy_pos = omega arith;
  healthy_pos = omega arith;
  has_mode = refl;
  has_addr = refl;
  armed_runnable = λ (h : str_eq "observe" "armed" ≡ true). cc;
}

-- Whatever the file holds, the loaded configuration has an interval, a timeout and two thresholds
-- that are positive, a mode and a status address that are not empty, and is armed only with a
-- failover script that exists, is no directory and is executable.
pub load_config-IsValid :
    (stat : String → Option FileInfo) (f : ConfigFile) → IsValid stat (load_config stat f)
unfolding load_config
load_config-IsValid stat absent = default_config-IsValid stat
load_config-IsValid stat malformed = default_config-IsValid stat
load_config-IsValid stat (parsed c) = disarm-IsValid stat (fill c) (fill-IsFilled c)
