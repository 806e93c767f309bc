-- ===== src/Cli/Args.antt =====
-- `parseArgs` and `parseClientType` of cli.go.
use Prim.Native.Char.{code}
use zev_bot.Prelude.{
  ℕ, ◌+◌, String, Option, none, some, List, [], ◌∷◌, Bool, true, false, ◌&&◌, ◌||◌, leb, ◌==◌, ite,
  str_eq, if◌then◌else◌,
}
use zev_bot.Signal.{Bytes, bytes_discrete}

pub data ClientType : Type 0 where
  client_chrome : ClientType
  client_android : ClientType
  client_ios : ClientType

-- `unicode.ToLower`, exact for the code points that give an ASCII letter
unfoldable pub to_lower : ℕ → ℕ
to_lower c =
    if leb b'A' c && leb c b'Z'
    then c + 32
    else if c == 304
    then b'i'
    else if c == 8490
    then b'k'
    else c

unfoldable pub lowered : String → Bytes
unfolding to_lower
lowered String.[] = []
lowered (String.◌∷◌ c s) = to_lower (code c) ∷ lowered s

abbrev pub is_name : Bytes → String → Bool
is_name name s = ite (bytes_discrete (lowered s) name) true false

abbrev pub chrome : Bytes
chrome = b'c' ∷ b'h' ∷ b'r' ∷ b'o' ∷ b'm' ∷ b'e' ∷ []

abbrev pub android : Bytes
android = b'a' ∷ b'n' ∷ b'd' ∷ b'r' ∷ b'o' ∷ b'i' ∷ b'd' ∷ []

abbrev pub ios : Bytes
ios = b'i' ∷ b'o' ∷ b's' ∷ []

unfoldable pub parse_client_type : String → Option ClientType
unfolding lowered
parse_client_type s =
    if is_name chrome s
    then some client_chrome
    else if is_name android s
    then some client_android
    else if is_name ios s
    then some client_ios
    else none

pub record CliArgs : Type 0 where
  pub session : String
  pub pair : Bool
  pub port : String
  pub auth_dir : String
  pub qr_code : Bool
  pub logout : Bool
  pub debug : Bool
  pub dev : Bool
  pub client : ClientType

-- The arguments, or the exit with a status.
pub data Parse : Type 0 where
  runs : CliArgs → Parse
  exits : ℕ → Parse

-- The argument behind the first occurrence of the flag that has one, else the empty text.
unfoldable pub get_value : String → List String → String
get_value flag [] = ""
get_value flag (a ∷ []) = ""
get_value flag (a ∷ b ∷ rest) =
    let later = get_value flag (b ∷ rest) in if str_eq a flag then b else later

unfoldable pub has_flag : String → List String → Bool
has_flag flag [] = false
has_flag flag (a ∷ rest) = let later = has_flag flag rest in if str_eq a flag then true else later

abbrev pub or_if_empty : String → String → String
or_if_empty s default = if str_eq s "" then default else s

-- The client type, none where it is unknown.
abbrev pub client_of : String → Option ClientType
client_of raw = if str_eq raw "" then some client_chrome else parse_client_type raw

abbrev with_client : Option ClientType → (ClientType → CliArgs) → Parse
with_client none k = exits 1
with_client (some c) k = runs (k c)

-- `env_port` is `$PORT`.
unfoldable pub parse_args : String → List String → Parse
unfolding get_value has_flag parse_client_type
parse_args env_port args =
    if has_flag "-h" args || has_flag "--help" args
    then exits 0
    else if str_eq (get_value "--session" args) ""
    then exits 1
    else with_client (client_of (get_value "--client" args)) λ client. record {
      session = get_value "--session" args;
      pair = has_flag "--pair" args;
      port = or_if_empty (or_if_empty (get_value "--port" args) env_port) "3000";
      auth_dir = or_if_empty (get_value "--auth-dir" args) "auth";
      qr_code = has_flag "--qrcode" args;
      logout = has_flag "--logout" args;
      debug = has_flag "--debug" args;
      dev = has_flag "--dev" args;
      client = client;
    }
