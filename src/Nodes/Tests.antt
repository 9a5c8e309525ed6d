-- ===== src/Nodes/Tests.antt =====
-- A registry of two nodes.
use ncn_platform.Base.{ℕ, ◌≡◌, refl, false, List, [], ◌∷◌, String, pos}
use ncn_platform.Base.Keyed.{has, Distinct}
use ncn_platform.Nodes.Record.{NodeRecord}
use ncn_platform.Nodes.Registry.{record_id, get}
use ncn_platform.Nodes.Registry.Refinement.{call_set_status, after_call, map_after, get-after_call}

abbrev node : String → NodeRecord ℕ
node id = record {
  id = id;
  label = id;
  country = "HK";
  address = "10.0.0.1";
  lat = 0;
  lon = 0;
  ssh_user = "root";
  ssh_identity = "";
  ssh_port = pos 22;
  region = pos 51;
  node_num = pos 1;
  arch = "amd64";
  status = "active";
  notes = "";
  created_by = "";
  created_at = 0;
  updated_at = 0;
}

abbrev two : List (NodeRecord ℕ)
two = node "pop-01" ∷ node "pop-02" ∷ []

abbrev same_text : String → String
same_text s = s

two-Distinct : Distinct record_id two
unfolding Distinct has
two-Distinct = (refl, (refl, tt))

get-after_call_example :
    get "pop-02" (after_call same_text 5 false (call_set_status "pop-02" "decommissioned") two)
    ≡ map_after same_text 5 false
        (call_set_status "pop-02" "decommissioned")
        (λ k. get k two)
        "pop-02"
get-after_call_example =
    get-after_call same_text 5 false (call_set_status "pop-02" "decommissioned") two "pop-02"
      two-Distinct
