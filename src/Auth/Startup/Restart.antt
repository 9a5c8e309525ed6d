-- ===== src/Auth/Startup/Restart.antt =====
-- What a start leaves, the next one reads as it is.
use ncn_platform.Base.{
  Bool, true, false, not, ◌&&◌, leb, Option, none, some, String, str_eq, ◌≡◌, length, All,
}
use ncn_platform.Auth.Operator.{OperatorRecord, Operators, Filed, Absent}

module _ {K : Type 0} where
  abbrev has_codes : String × OperatorRecord K → Bool
  has_codes e = leb 1 (length e.1.recovery_codes)

  abbrev legacy : String × OperatorRecord K → Bool
  legacy e = str_eq e.1.invited_by "" && not e.1.approved

  -- The start has nothing to change in the record.
  abbrev pub Ready : String × OperatorRecord K → Type 0
  Ready e = (has_codes e ≡ true) × (legacy e ≡ false)

  abbrev Coded : Operators K → Type 0
  Coded = All (λ e. has_codes e ≡ true)

  -- Nothing is filed under a new name, and what was filed right still is.
  record SameNames (ops ops' : Operators K) : Type 0 where
    absent : (u : String) → Absent u ops → Absent u ops'
    filed : Filed ops → Filed ops'

  Migrated : Operators K → Option (Operators K × Bool) → Type 0
  Migrated ops none = Unit
  Migrated ops (some (ops', changed)) = Coded ops' × SameNames ops ops'

  -- What is left in memory where old records were changed.
  Left : Option (Operators K) → Type 0
  Left none = Unit
  Left (some ops) = All Ready ops × Filed ops

  FiledRead : Option (Operators K × Bool) → Type 0
  FiledRead none = Unit
  FiledRead (some (ops, from_db)) = Filed ops
