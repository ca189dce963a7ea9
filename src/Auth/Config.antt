-- ===== src/Auth/Config.antt =====
-- web/src/lib/dashboard-config.ts: the configuration of the dashboard is kept.
use meergate.Base.{
  ◌≡◌, refl, String, true, false, Option, some, lookup-insert_self, string_eq, str_eq,
}
use meergate.Auth.{
  Storage, DashboardConfig, ParsedConfig, load_dashboard_config, save_dashboard_config, storage_key,
}

-- In a page, the saved configuration is the one that is loaded. The hypothesis says that
-- `JSON.parse` reads what `JSON.stringify` writes.
pub load-save :
    (parse : String → Option ParsedConfig) (stringify : DashboardConfig → String)
    (config : DashboardConfig) (s : Storage)
    → parse (stringify config)
      ≡ some (record { kpis = some config.kpis; sections = some config.sections })
    → str_eq (stringify config) "" ≡ false
    → s.has_window ≡ true
    → load_dashboard_config parse (save_dashboard_config stringify config s) ≡ config
unfolding load_dashboard_config save_dashboard_config
load-save parse stringify config s h k w =
    rw (w, lookup-insert_self storage_key (stringify config) s.items) (rw (k, h) refl)
