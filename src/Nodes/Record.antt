-- ===== src/Nodes/Record.antt =====
-- core-console/backend/noderegistry.go: a node's record, the patch on it and its projection for the
-- scraper. Coordinates are 64-bit floats: their type `F` is an argument, and so is
-- `strings.ToUpper`, which goes by Unicode's tables.
use ncn_platform.Base.{ℕ, Bool, not, Option, none, some, String, str_eq, ℤ, valid_id, trim_space}

abbrev pub decommissioned : String
decommissioned = "decommissioned"

pub record NodeRecord (F : Type 0) : Type 0 where
  pub id : String
  pub label : String
  pub country : String
  pub address : String
  pub lat : F
  pub lon : F
  pub ssh_user : String
  pub ssh_identity : String
  pub ssh_port : ℤ
  pub region : ℤ
  pub node_num : ℤ
  pub arch : String
  pub status : String
  pub notes : String
  pub created_by : String
  pub created_at : ℕ
  pub updated_at : ℕ

pub record FleetNode (F : Type 0) : Type 0 where
  pub id : String
  pub label : String
  pub country : String
  pub address : String
  pub lat : F
  pub lon : F
  pub ssh_host : String
  pub ssh_user : String
  pub ssh_identity : String
  pub ssh_port : ℤ
  pub region : ℤ

pub record NodePatch (F : Type 0) : Type 0 where
  pub label : Option String
  pub country : Option String
  pub address : Option String
  pub lat : Option F
  pub lon : Option F
  pub ssh_user : Option String
  pub ssh_identity : Option String
  pub ssh_port : Option ℤ
  pub region : Option ℤ
  pub node_num : Option ℤ
  pub arch : Option String
  pub notes : Option String

pub valid_node_id : String → Bool
valid_node_id = valid_id 30

abbrev set_if {ℓ} : {A : Type ℓ} → (A → A) → Option A → A → A
set_if f none a = a
set_if f (some b) a = f b

abbrev same {ℓ} : {A : Type ℓ} → A → A
same a = a

module _ {F : Type 0} where
  pub is_active : NodeRecord F → Bool
  is_active r = not (str_eq r.status decommissioned)

  pub to_fleet_node : NodeRecord F → FleetNode F
  to_fleet_node r = record {
    id = r.id;
    label = r.label;
    country = r.country;
    address = r.address;
    lat = r.lat;
    lon = r.lon;
    ssh_host = r.id;
    ssh_user = r.ssh_user;
    ssh_identity = r.ssh_identity;
    ssh_port = r.ssh_port;
    region = r.region;
  }

  unfoldable pub patch_node : (String → String) → NodePatch F → NodeRecord F → NodeRecord F
  unfolding trim_space
  patch_node upper p r = record r {
    label = set_if trim_space p.label r.label;
    country = set_if (λ s. upper (trim_space s)) p.country r.country;
    address = set_if trim_space p.address r.address;
    lat = set_if same p.lat r.lat;
    lon = set_if same p.lon r.lon;
    ssh_user = set_if trim_space p.ssh_user r.ssh_user;
    ssh_identity = set_if trim_space p.ssh_identity r.ssh_identity;
    ssh_port = set_if same p.ssh_port r.ssh_port;
    region = set_if same p.region r.region;
    node_num = set_if same p.node_num r.node_num;
    arch = set_if trim_space p.arch r.arch;
    notes = set_if same p.notes r.notes;
  }
