-- ===== src/Gateway/Fixtures.antt =====
-- What a request to the daemon of the tests finds.
use ocu_mcp_gateway.Base.{true, false, List, [], ◌∷◌, none, some, err, Str, codes, pos}
use ocu_mcp_gateway.Boot.{Loaded}
use ocu_mcp_gateway.Forward.Calls.{World}
use ocu_mcp_gateway.Ingress.Exchange.{Request}
use ocu_mcp_gateway.Ingress.Fixtures.{env, post}
use ocu_mcp_gateway.Profile.{Decoding}
use ocu_mcp_gateway.Daemon.Fixtures.{checksum}
use ocu_mcp_gateway.Gateway.{Moment}

abbrev pub silent : World
silent = record {
  token = some (codes "t");
  round_trip = λ made call. none;
  session_reply = λ body. none;
  exec_reply = λ body. none;
  encode = λ s. s;
  decode = λ s. some s;
  decimal = λ n. [];
  scope_json = λ s. s;
}

-- Every text is a call of the tool `view`.
abbrev pub reader : Decoding
reader = record {
  Doc = Str;
  document = some;
  members = λ raw. some (
      (codes "jsonrpc", codes "2.0")
      ∷ (codes "method", codes "tools/call")
      ∷ (codes "params", codes "P")
      ∷ []);
  string = some;
  call_params = λ raw. some (record { name = some (codes "view"); arguments = codes "{}" });
  single_message = λ doc. true;
  def_schema = λ name. none;
}

abbrev pub moment : Moment
moment = record {
  sent = some (codes "B", false);
  profile = reader;
  marshal = λ json. codes "{}";
  now = 5;
  sha256 = checksum;
  world = silent;
  ceiling = record { limit = pos 64; counts = [] };
  rest = env;
}

-- A refresh that failed.
abbrev pub ticks : List Loaded
ticks = err tt ∷ []

abbrev pub keyed : Request
keyed = record post { authorization = codes "Bearer sk-ocu-7" }
