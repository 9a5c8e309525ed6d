-- ===== src/Alerts/Event.antt =====
-- core-console/backend/alerts.go: an alert event with its trail, and the engine that holds the
-- events. Times are nanoseconds of the wall clock; `unix` is `now.Unix()`. An event's ID is the
-- number that the source writes in decimal.
use ncn_platform.Base.{
  ℕ, ◌-◌, ◌/◌, ◌*◌, Bool, List, [], ◌∷◌, ◌++◌, String, text_append, ltb, if◌then◌else◌, length,
  drop, ℤ,
}
use ncn_platform.Base.Dict.{Dict}
use ncn_platform.Alerts.Rule.{AlertRule}

abbrev pub second : ℕ
second = 1000000000

abbrev pub unix : ℕ → ℕ
unix now = now / 1000000000

abbrev pub alert_trail_cap : ℕ
alert_trail_cap = 60

abbrev pub alert_sustain_ticks : ℕ
alert_sustain_ticks = 2

abbrev pub alert_tg_cooldown : ℕ
alert_tg_cooldown = 1800 * 1000000000

abbrev pub alert_storm_threshold : ℕ
alert_storm_threshold = 6

pub record AlertSample : Type 0 where
  pub at : ℕ
  pub message : String

pub record AlertEvent : Type 0 where
  pub id : ℕ
  pub node_id : String
  pub rule_id : String
  pub title : String
  pub description : String
  pub threshold : String
  pub severity : String
  pub message : String
  pub trail : List AlertSample
  pub fired_at : ℕ
  pub resolved_at : ℕ
  pub state : String
  pub acked : Bool
  pub acked_by : String
  pub updated : ℕ
  pub tick_count : ℕ
  pub tg_fire_sent : Bool
  pub tg_posted : Bool
  pub notify_tg : Bool
  pub suppress_tg : Bool
  pub min_sev : String
  pub repeat_secs : ℤ
  pub escalate_secs : ℤ
  pub escalated : Bool
  pub group_key : String

-- `xs[len(xs)-n:]` where the slice is longer than n.
abbrev pub last_n {ℓ} : {A : Type ℓ} → ℕ → List A → List A
last_n n xs = if ltb n (length xs) then drop (length xs - n) xs else xs

-- `append(existing.Trail, …)` and the cut to the newest samples.
unfoldable pub push_trail : ℕ → String → AlertEvent → AlertEvent
push_trail at msg ev = record ev {
  trail = last_n alert_trail_cap (ev.trail ++ record { at = at; message = msg } ∷ []);
}

pub record AlertEngine (B S : Type 0) : Type 0 where
  pub notify : Bool  -- a Telegram notifier is wired
  pub rules : List (AlertRule B S)
  pub pending : Dict ℕ
  pub clearing : Dict ℕ
  pub active : Dict AlertEvent
  pub history : List AlertEvent
  pub hist_cap : ℕ
  pub history_dirty : Bool
  pub last_tg_fire : Dict ℕ
  pub baselines : B
  pub last_seq : ℕ

-- `n.Node.ID + ":" + r.ID`.
unfoldable pub alert_key : String → String → String
alert_key node_id rule_id = text_append node_id (text_append ":" rule_id)

pub record PendingFire : Type 0 where
  pub ev : AlertEvent
  pub key : String

-- What the engine sends, or starts as a goroutine.
pub data Effect : Type 0 where
  webhook : AlertEvent → String → Effect
  nudge : AlertEvent → String → Effect
  triage_fire : AlertEvent → String → Effect
  triage_group : List PendingFire → String → String → Effect
  group_card : List PendingFire → String → String → Effect
