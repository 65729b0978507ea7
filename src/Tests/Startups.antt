-- ===== src/Tests/Startups.antt =====
-- One run of each theorem on the configuration.
use account_abstraction.Base.{◌≡◌, refl, none, some, ok, List, [], ◌∷◌, ◌==◌, if◌then◌else◌}
use account_abstraction.Js.Text.{template}
use account_abstraction.Bundler.Types.{Config}
use account_abstraction.Bundler.Startup.{
  Environment, FileAuth, load_auth_config, strip_slashes, jwks_uri_of, assert_config,
  create_authenticator, create_authenticator-ok,
}
use account_abstraction.Bundler.Args.{parse_args}
use account_abstraction.Bundler.Args.Written.{
  Argument, flag, valued, ignored, meant, parse_args-written,
}
use account_abstraction.Tests.Toys.{toy_ethers, toy_config}

abbrev toy_environment : Environment
toy_environment name = if name == "KEYCLOAK_URL" then some "https://sso.example//" else none

abbrev toy_file : FileAuth
toy_file = record {
  url = none;
  realm = some "lnet";
  issuer = none;
  client_id = none;
  audience = none;
  required_role = some "bundler-writer";
}

abbrev loaded_config : Config
loaded_config = record toy_config { auth = load_auth_config toy_environment toy_file }

accepted : assert_config toy_ethers loaded_config ≡ ok tt
unfolding assert_config load_auth_config strip_slashes jwks_uri_of template
accepted = refl

toy_authenticator : create_authenticator loaded_config.auth ≡ ok tt
toy_authenticator =
    create_authenticator-ok toy_ethers toy_environment toy_file loaded_config refl accepted

abbrev command_line : List Argument
command_line = ignored "start" ∷ valued "config" "bundler.json" ∷ flag "quiet" ∷ []

parse_args-written_example :
    parse_args ("start" ∷ "--config" ∷ "bundler.json" ∷ "--quiet" ∷ []) [] ≡ meant command_line []
parse_args-written_example = parse_args-written command_line [] (refl, (refl, (tt, tt)))
