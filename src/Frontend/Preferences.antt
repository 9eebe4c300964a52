-- ===== src/Frontend/Preferences.antt =====
-- frontend/src/components/NotificationPreferences.tsx: a toggle is shown at once and sent to the server,
-- whose answer it is replaced by. The handler is cut at its await: several may be under way.
use stellar_kraal.Common.{String, ◌≡◌, refl, Bool, true, false, not, List, [], ◌∷◌, arith}
use stellar_kraal.Http.{Outcome, resolved, rejected}

pub record NotificationSettings : Type 0 where
  pub health_factor_alerts : Bool
  pub repayment_reminders : Bool
  pub liquidation_warnings : Bool

pub data Key : Type 0 where
  health_factor_alerts repayment_reminders liquidation_warnings : Key

abbrev pub setting : Key → NotificationSettings → Bool
setting Key.health_factor_alerts s = s.health_factor_alerts
setting Key.repayment_reminders s = s.repayment_reminders
setting Key.liquidation_warnings s = s.liquidation_warnings

-- `{ ...settings, [key]: !settings[key] }`
abbrev pub flip : Key → NotificationSettings → NotificationSettings
flip Key.health_factor_alerts s = record s { health_factor_alerts = not s.health_factor_alerts }
flip Key.repayment_reminders s = record s { repayment_reminders = not s.repayment_reminders }
flip Key.liquidation_warnings s = record s { liquidation_warnings = not s.liquidation_warnings }

pub record Panel : Type 0 where
  pub settings : NotificationSettings
  pub loading : Bool
  pub toasts : List String

abbrev pub first_panel : Panel
first_panel = record {
  settings = record {
    health_factor_alerts = true;
    repayment_reminders = true;
    liquidation_warnings = true;
  };
  loading = true;
  toasts = [];
}

-- The effect on mount, when the answer is there.
unfoldable pub load_settings : Outcome NotificationSettings → Panel → Panel
load_settings (resolved s) p = record p { settings = s; loading = false }
load_settings (rejected e) p = record p { loading = false }

-- `toggle` up to its await: `prev`, and the panel.
unfoldable pub toggle_begin : Key → Panel → NotificationSettings × Panel
toggle_begin key p = (p.settings, record p { settings = flip key p.settings })

-- The rest, with the settings that the server answers, or any failure.
unfoldable pub toggle_finish : NotificationSettings → Outcome NotificationSettings → Panel → Panel
toggle_finish prev (resolved saved) p = record p {
  settings = saved;
  toasts = "Notification preference saved." ∷ p.toasts;
}
toggle_finish prev (rejected e) p = record p {
  settings = prev;
  toasts = "Failed to save preference. Please try again." ∷ p.toasts;
}

flip-flip : (key : Key) (s : NotificationSettings) → flip key (flip key s) ≡ s
flip-flip key s = ground arith

-- A toggle that fails, with no other under way, leaves the settings as they were.
pub toggle_finish-toggle_begin :
    (key : Key) (e : String) (p : Panel)
    → let (prev, p') = toggle_begin key p in
      (toggle_finish prev (rejected e) p').settings ≡ p.settings
unfolding toggle_finish toggle_begin
toggle_finish-toggle_begin key e p = refl

-- A toggle that fails after a second one has been saved takes the second one off the screen as well:
-- the panel shows the settings from before both, whatever the server has stored.
pub toggle_finish-overtaken :
    (key key' : Key) (e : String) (saved : NotificationSettings) (p : Panel)
    → let (prev, p1) = toggle_begin key p in
      let (prev', p2) = toggle_begin key' p1 in
      let p3 = toggle_finish prev' (resolved saved) p2 in
      (p3.settings ≡ saved) × ((toggle_finish prev (rejected e) p3).settings ≡ p.settings)
unfolding toggle_finish toggle_begin
toggle_finish-overtaken key key' e saved p = (refl, refl)
