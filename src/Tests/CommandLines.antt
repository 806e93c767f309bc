-- ===== src/Tests/CommandLines.antt =====
-- The theorem on the command line, at one with a value and a flag.
use zev_bot.Prelude.{ℕ_discrete, String, List, [], ◌∷◌, ◌≡◌, true, refl, string_discrete, false}
use zev_bot.Signal.{bytes_discrete}
use zev_bot.Cli.{parse_args, runs, has_flag, get_value, client_ios, lowered, parse_client_type}

abbrev arguments : List String
arguments = "--pair" ∷ "--session" ∷ "3161" ∷ "--client" ∷ "iOS" ∷ []

started :
    parse_args "8080" arguments
    ≡ runs (record {
      session = "3161";
      pair = true;
      port = "8080";
      auth_dir = "auth";
      qr_code = false;
      logout = false;
      debug = false;
      dev = false;
      client = client_ios;
    })
unfolding parse_args get_value has_flag string_discrete parse_client_type lowered bytes_discrete
    ℕ_discrete
started = refl
