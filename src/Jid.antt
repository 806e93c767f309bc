-- ===== src/Jid.antt =====
-- The parts of whatsmeow's `types` package that the stores use. The package is not in the
-- repository, so its functions and constants are a parameter: the fields of `Types`.
use zev_bot.Prelude.{ℕ, String, ◌≡◌, ◌≢◌}

-- `types.JID`, by the fields that the stores read and write.
pub record Jid : Type 0 where
  pub user : String
  pub device : ℕ
  pub server : String

pub record Types : Type 0 where
  pub default_user_server : String
  pub hidden_user_server : String
  pub servers_ne : default_user_server ≢ hidden_user_server
  pub to_non_ad : Jid → Jid
  -- `ToNonAD` keeps the user and the server, and drops the device.
  pub to_non_ad_lem :
      (j : Jid)
      → ((to_non_ad j).user ≡ j.user)
        × ((to_non_ad j).device ≡ 0)
        × ((to_non_ad j).server ≡ j.server)

-- `types.JID{}` and `types.EmptyJID`
abbrev pub empty_jid : Jid
empty_jid = record { user = ""; device = 0; server = "" }
