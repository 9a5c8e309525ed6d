-- ===== src/Oncall/Rota.antt =====
-- core-console/backend/oncall.go: the configuration, the rotation and the chats that a page goes to.
-- Times are nanoseconds; `time.Parse` is the argument `parse`, whose result is nanoseconds from 1970,
-- negative before; the difference of two times is taken as exact (Go's is within 292 years). The argument
-- `days` is `int(d.Hours() / 24)`, which rounds in 64-bit floats.
pub mod Shifts
use ncn_platform.Base.{
  ℕ, zero, suc, ◌+◌, ◌-◌, ◌*◌, ◌/◌, ◌%◌, Bool, true, false, not, ◌||◌, ◌==◌, List, [], ◌∷◌, Option,
  none, some, String, str_eq, if◌then◌else◌, length, get_elem?, any, ℤ, pos, negsuc, leb_ℤ, to_ℕ,
  minus, less_ℤ,
}

pub record Tier : Type 0 where
  pub after_min : ℤ
  pub target : String

pub record OncallConfig : Type 0 where
  pub rotation : List String
  pub start_date : String
  pub period_days : ℤ
  pub tiers : List Tier

abbrev pub default_period : ℤ
default_period = pos 7

abbrev pub day : ℕ
day = 24 * 3600 * 1000000000

-- The time from the start of the rotation to `now`, negative before the start.
abbrev pub elapsed : Option ℤ → ℕ → ℤ
elapsed none now = pos now
elapsed (some (pos start)) now = minus now start
elapsed (some (negsuc n)) now = pos (now + suc n)

abbrev pub or_empty : Option String → String
or_empty none = ""
or_empty (some who) = who

abbrev pub positive_period : ℤ → ℕ
positive_period p = if leb_ℤ p 0 then to_ℕ default_period else to_ℕ p

-- `currentOncall`; an empty rotation has nobody, and a negative number of days counts as 0.
unfoldable pub current_oncall :
    (parse : String → Option ℤ) (days : ℤ → ℤ) → OncallConfig → ℕ → String
current_oncall parse days cfg now =
    let d = to_ℕ (days (elapsed (parse cfg.start_date) now)) in
    or_empty (get_elem? cfg.rotation ((d / positive_period cfg.period_days) % length cfg.rotation))

-- What a page needs of the operators: their chats, and the administrators.
pub record Directory : Type 0 where
  pub group_chat : String
  pub chat_for : String → Option String
  pub admins : List String

abbrev chats_of : (String → Option String) → List String → List String
chats_of chat_for [] = []
chats_of chat_for (u ∷ us) =
    let rest = chats_of chat_for us in elim (chat_for u) [ none ↦ rest | some chat ↦ chat ∷ rest ]

abbrev or_group : Directory → Option String → String
or_group d none = d.group_chat
or_group d (some chat) = chat

-- The chats that `page` writes to for a tier's target when `who` is on call.
unfoldable pub page : Directory → String → String → List String
page d target who =
    if str_eq target "group"
    then d.group_chat ∷ []
    else if str_eq target "admins"
    then chats_of d.chat_for d.admins
    else if str_eq who ""
    then d.group_chat ∷ []
    else or_group d (d.chat_for who) ∷ []

-- `sort.SliceStable` by `AfterMin <`.
insert_tier : Tier → List Tier → List Tier
insert_tier t [] = t ∷ []
insert_tier t (u ∷ us) =
    let rest = insert_tier t us in if less_ℤ u.after_min t.after_min then u ∷ rest else t ∷ u ∷ us

pub sort_tiers : List Tier → List Tier
unfolding insert_tier
sort_tiers [] = []
sort_tiers (t ∷ ts) = insert_tier t (sort_tiers ts)

abbrev known_target : String → Bool
known_target s = str_eq s "oncall" || (str_eq s "admins" || str_eq s "group")

default_targets : List Tier → List Tier
default_targets [] = []
default_targets (t ∷ ts) =
    (if known_target t.target then t else record t { target = "oncall" }) ∷ default_targets ts

-- The configuration that `handleOncallSet` stores.
pub normalise : OncallConfig → OncallConfig
unfolding sort_tiers default_targets
normalise cfg = record cfg {
  period_days = if leb_ℤ cfg.period_days 0 then default_period else cfg.period_days;
  tiers = default_targets (sort_tiers cfg.tiers);
}
