-- ===== src/Cli/Starts.antt =====
-- What `parseArgs` (cli.go) hands to the program.
use zev_bot.Prelude.{String, ◌≢◌, List, All}
use zev_bot.Cli.Args.{CliArgs, ClientType, get_value, has_flag, or_if_empty}

-- The program starts: no help is asked for, and the session, the port and the directory are named.
pub record Ready (env_port : String) (args : List String) (c : CliArgs) : Type 0 where
  pub no_help : All (λ a. (a ≢ "-h") × (a ≢ "--help")) args
  pub session : c.session ≢ ""
  pub port : c.port ≢ ""
  pub auth_dir : c.auth_dir ≢ ""

module _ (env_port : String) (args : List String) where
  -- The record that the program starts with.
  abbrev started : ClientType → CliArgs
  started client = record {
    session = get_value "--session" args;
    pair = has_flag "--pair" args;
    port = or_if_empty (or_if_empty (get_value "--port" args) env_port) "3000";
    auth_dir = or_if_empty (get_value "--auth-dir" args) "auth";
    qr_code = has_flag "--qrcode" args;
    logout = has_flag "--logout" args;
    debug = has_flag "--debug" args;
    dev = has_flag "--dev" args;
    client = client;
  }
