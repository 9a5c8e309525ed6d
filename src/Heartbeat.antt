-- ===== src/Heartbeat.antt =====
-- core-console/backend/heartbeat.go: the availability of each component by day. Times are seconds and days
-- are counted from the first of January of the year 0, so that the days of the window before a time are
-- numbers too. `format` writes a day as YYYY-MM-DD. The floats are an argument.
pub mod Summary
pub mod Count
pub mod Uptime
pub mod Order
mod Tests
use ncn_platform.Base.{
  ℕ, zero, suc, ◌+◌, ◌-◌, ◌/◌, ◌==◌, ltb, leb, Bool, true, false, not, ◌&&◌, ◌||◌, List, [], ◌∷◌,
  ◌++◌, map, Option, none, some, String, str_eq, text_less, if◌then◌else◌, any, ℤ, pos, negsuc,
}
use ncn_platform.Base.Dict.{Dict, lookup, insert, delete}

abbrev pub heartbeat_retention_days : ℕ
heartbeat_retention_days = 90

abbrev pub hb_status_unknown : ℤ
hb_status_unknown = negsuc 0

abbrev pub hb_status_down : ℤ
hb_status_down = pos 0

abbrev pub hb_status_up : ℤ
hb_status_up = pos 1

pub record HttpCheck : Type 0 where
  pub name : String
  pub url : String

unfoldable pub status_http_checks : List HttpCheck
status_http_checks =
    record { name = "Website · example.com"; url = "https://example.com/" }
    ∷ record { name = "Console · admin.example.com"; url = "https://admin.example.com/" }
    ∷ record { name = "Webmail · mail.example.com"; url = "https://mail.example.com/" }
    ∷ record { name = "API"; url = "https://admin.example.com/api/v1/health" }
    ∷ []

pub record HbDay : Type 0 where
  pub day : String
  pub up : ℕ
  pub down : ℕ

-- The time of the last check is the number of its second, and 0 where there was none.
pub record HbComponent (F : Type 0) : Type 0 where
  pub name : String
  pub category : String
  pub type : String
  pub url : String
  pub last_status : ℤ
  pub last_latency : F
  pub last_check : ℕ
  pub days : Dict HbDay

pub record HeartbeatStore (F : Type 0) : Type 0 where
  pub components : Dict (HbComponent F)
  pub order : List String

-- What the database answers at the start.
pub data DbLoad (F : Type 0) : Type 0 where
  no_database load_failed no_document unparsed : DbLoad F
  parsed : Dict (HbComponent F) → DbLoad F

abbrev pub has_database : {F : Type 0} → DbLoad F → Bool
has_database no_database = false
has_database _ = true

-- What the code does with floats: the sum and the mean of the round trips, and the share of the ups.
pub record Floats (F : Type 0) : Type 0 where
  pub nought : F
  pub plus : F → F → F
  pub over : F → ℕ → F
  pub ratio : ℕ → ℕ → F

-- What the sample reads of a node's cached status.
pub record ProbeOut (F : Type 0) : Type 0 where
  pub name : String
  pub last_ok : Bool
  pub last_ms : F

pub record FleetNodeStatus (F : Type 0) : Type 0 where
  pub ok : Bool
  pub probes : List (ProbeOut F)

-- A node of the fleet and its cached status, if it was ever scraped.
pub record FleetEntry (F : Type 0) : Type 0 where
  pub id : String
  pub cache : Option (FleetNodeStatus F)

pub record PopRead (F : Type 0) : Type 0 where
  pub id : String
  pub ok : Bool
  pub lat : F

-- One call of `record`, with the time it reads.
pub record Reading (F : Type 0) : Type 0 where
  pub at : ℕ
  pub name : String
  pub up : Bool
  pub latency : F

abbrev pub today : ℕ → ℕ
today now = now / 86400

module _ {F : Type 0} (fl : Floats F) where
  abbrev pop_component : String → HbComponent F
  pop_component id = record {
    name = id;
    category = "Points of Presence";
    type = "pop";
    url = "";
    last_status = hb_status_unknown;
    last_latency = fl.nought;
    last_check = 0;
    days = [];
  }

  abbrev website_component : HttpCheck → HbComponent F
  website_component c = record {
    name = c.name;
    category = "Public Services";
    type = "website";
    url = c.url;
    last_status = hb_status_unknown;
    last_latency = fl.nought;
    last_check = 0;
    days = [];
  }

  unfoldable pub define : HbComponent F → HeartbeatStore F → HeartbeatStore F
  define c s = record {
    components = insert c.name (record c { last_status = hb_status_unknown }) s.components;
    order = s.order ++ c.name ∷ [];
  }

  define_all : List (HbComponent F) → HeartbeatStore F → HeartbeatStore F
  unfolding define
  define_all [] s = s
  define_all (c ∷ cs) s = define_all cs (define c s)

  ensure_absent : String → Option (HbComponent F) → HeartbeatStore F → HeartbeatStore F
  unfolding define
  ensure_absent id none s = define (pop_component id) s
  ensure_absent id (some c) s = s

  unfoldable pub ensure_pop : String → HeartbeatStore F → HeartbeatStore F
  unfolding ensure_absent
  ensure_pop id s = ensure_absent id (lookup id s.components) s

  -- The saved history of one component, onto its definition.
  merge_found :
      String → HbComponent F → Option (HbComponent F) → Dict (HbComponent F) → Dict (HbComponent F)
  merge_found name saved none cs = cs
  merge_found name saved (some c) cs =
      insert name
        (record c {
          days = saved.days;
          last_status = saved.last_status;
          last_latency = saved.last_latency;
          last_check = saved.last_check;
        })
        cs

  -- A saved component without days has the empty map that a fresh one has.
  merge : Dict (HbComponent F) → Dict (HbComponent F) → Dict (HbComponent F)
  unfolding merge_found
  merge [] cs = cs
  merge ((name, saved) ∷ rest) cs = merge rest (merge_found name saved (lookup name cs) cs)

  unfoldable pub fresh_store : List String → HeartbeatStore F
  unfolding define_all
  fresh_store nodes =
      define_all (map pop_component nodes ++ map website_component status_http_checks)
        (record { components = []; order = [] })

  unfoldable pub merged_store : List String → Dict (HbComponent F) → HeartbeatStore F
  unfolding merge
  merged_store nodes saved =
      let s = fresh_store nodes in record s { components = merge saved s.components }

  -- What the start finds saved: the document of the database where it has one, the file otherwise. The
  -- flag says that it came from the database; none is a document that cannot be parsed.
  unfoldable pub load_saved :
      DbLoad F → Option (Option (Dict (HbComponent F))) → Option (Dict (HbComponent F) × Bool)
  load_saved (parsed saved) file = some (saved, true)
  load_saved unparsed file = none
  load_saved _ none = some ([], false)
  load_saved _ (some none) = none
  load_saved _ (some (some saved)) = some (saved, false)

  store_found :
      Bool → Bool → List String → Option (Dict (HbComponent F) × Bool) → Option (HeartbeatStore F)
  store_found has_db persisted nodes none = none
  store_found has_db persisted nodes (some (saved, from_db)) =
      if has_db && (not from_db && not persisted) then none else some (merged_store nodes saved)

  -- `newHeartbeatStore`: whether the directory could be made, the file, and whether the write of a first
  -- start with the database succeeded. A file that is absent or empty is none.
  unfoldable pub new_heartbeat_store :
      Bool
      → DbLoad F
      → Option (Option (Dict (HbComponent F)))
      → Bool
      → List String
      → Option (HeartbeatStore F)
  unfolding store_found
  new_heartbeat_store made db file persisted nodes =
      if made then store_found (has_database db) persisted nodes (load_saved db file) else none

  anchor_sum : List (ProbeOut F) → F × ℕ → F × ℕ
  anchor_sum [] acc = acc
  anchor_sum (pr ∷ prs) acc = anchor_sum prs (
      if pr.last_ok && (str_eq pr.name "cloudflare-v4" || str_eq pr.name "google-v4")
      then (fl.plus acc.0 pr.last_ms, suc acc.1)
      else acc)

  unfoldable pub anchor_latency : FleetNodeStatus F → F
  unfolding anchor_sum
  anchor_latency st =
      let acc = anchor_sum st.probes (fl.nought, 0) in
      if ltb 0 acc.1 then fl.over acc.0 acc.1 else fl.nought

  pop_read_found : String → Option (FleetNodeStatus F) → List (PopRead F) → List (PopRead F)
  unfolding anchor_latency
  pop_read_found id none rest = rest
  pop_read_found id (some st) rest = record { id = id; ok = st.ok; lat = anchor_latency st } ∷ rest

  -- Nodes that were never scraped are left out.
  unfoldable pub pop_reads : List (FleetEntry F) → List (PopRead F)
  unfolding pop_read_found
  pop_reads [] = []
  pop_reads (n ∷ ns) = pop_read_found n.id n.cache (pop_reads ns)

unfoldable pub prune_days : String → Dict HbDay → Dict HbDay
prune_days cutoff [] = []
prune_days cutoff ((k, d) ∷ rest) =
    let pruned = prune_days cutoff rest in
    if text_less k cutoff then delete k pruned else (k, d) ∷ pruned

abbrev pub found_day : String → Option HbDay → HbDay
found_day day none = record { day = day; up = 0; down = 0 }
found_day day (some d) = d

abbrev pub tallied : Bool → HbDay → HbDay
tallied up d = if up then record d { up = suc d.up } else record d { down = suc d.down }

unfoldable pub record_day : (ℕ → String) → ℕ → Bool → Dict HbDay → Dict HbDay
unfolding prune_days
record_day format now up days =
    let day = format (today now) in
    prune_days (format (today now - heartbeat_retention_days))
      (insert day (tallied up (found_day day (lookup day days))) days)

module _ {F : Type 0} (format : ℕ → String) where
  abbrev pub with_reading : Reading F → HbComponent F → HbComponent F
  with_reading r c = record c {
    days = record_day format r.at r.up c.days;
    last_status = if r.up then hb_status_up else hb_status_down;
    last_latency = r.latency;
    last_check = r.at;
  }

  unfoldable pub record_found :
      Reading F → Option (HbComponent F) → Dict (HbComponent F) → Dict (HbComponent F)
  record_found r none cs = cs
  record_found r (some c) cs = insert r.name (with_reading r c) cs

  -- `record`.
  unfoldable pub record_reading : Reading F → HeartbeatStore F → HeartbeatStore F
  unfolding record_found
  record_reading r s = record s {
    components = record_found r (lookup r.name s.components) s.components;
  }

  unfoldable pub record_all : List (Reading F) → HeartbeatStore F → HeartbeatStore F
  unfolding record_reading
  record_all [] s = s
  record_all (r ∷ rs) s = record_all rs (record_reading r s)

  module _ (fl : Floats F) where
    record_pops : ℕ → List (PopRead F) → HeartbeatStore F → HeartbeatStore F
    unfolding record_reading
    record_pops now [] s = s
    record_pops now (p ∷ ps) s = record_pops now ps (
        record_reading (record { at = now; name = p.id; up = p.ok; latency = p.lat })
          (ensure_pop fl p.id s))

    -- The nodes read the clock once here. The public addresses answer in any order, each at its time.
    unfoldable pub sample :
        ℕ → List (FleetEntry F) → List (Reading F) → HeartbeatStore F → HeartbeatStore F
    unfolding record_pops pop_reads
    sample now nodes probes s = record_all probes (record_pops now (pop_reads fl nodes) s)

-- The test of the answer in `httpProbe`.
unfoldable pub http_up : ℕ → Bool
http_up status = leb 200 status && ltb status 400
