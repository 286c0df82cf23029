-- ===== src/Link.antt =====
-- The agent of dcp-provider and the server of dcp-control-plane together: a request that the agent
-- sends is answered by the server's handlers. What carries it, net/http, net/url and encoding/json,
-- is the parameter `Wire`. Each call of the agent's client sends one request at most.
pub mod Delivery
pub mod Turn
pub mod Admission
pub mod Joining
pub mod Once
pub mod Beating
use provider_engine.Base.{
  ℕ, Text, bytes, ℤ, List, [], ◌∷◌, ◌++◌, Bool, true, ◌&&◌, ◌||◌, Option, none, some, ◌≡◌, ◌≢◌, eqb,
  leb, not,
}
use provider_engine.Exec.{Result}
use provider_engine.Machine.{Os}
use provider_engine.Store.Redis.{Redis}
use provider_engine.Api.Http.{Request, Response, Payload}
use provider_engine.Api.Server.{Server, Env, Config}
use provider_engine.Api.Routes.{serve}
use provider_engine.Provider.Client.{
  Network, Client, Sent, Body, Answer, answered, unanswered, RegisterResponse, DeployJob,
}
use provider_engine.Provider.Keys.{Device}
use provider_engine.Provider.Wireguard.{Keygen}
use provider_engine.Provider.Attestation.{Binary}
use provider_engine.Provider.Vm.Firecracker.{Vmm}
use provider_engine.Provider.Agent.{Agent, handle_job}
use provider_engine.Provider.Run.{Platform, Joined, Pass, retry, next, handle, poll_pass}

pub record Wire : Type 0 where
  -- the path of a URL, cut at its slashes
  pub path : Text → List Text
  pub bad_url : Text → Option Text
  -- json.Marshal of the agent and json.Encode of the server, and what the agent decodes
  pub print : Body → Text
  pub print_payload : Payload → Text
  pub read_register : Text → Result RegisterResponse
  pub read_job : Text → Result DeployJob
  -- the error of a request whose answer does not reach the agent, such as a connection that breaks
  -- or the client's Timeout of 15 seconds, which ends before the server's wait for a job does
  pub lost : Sent → Option Text

abbrev pub plain_char : ℕ → Bool
plain_char c =
    (leb 48 c && leb c 57) || ((leb 65 c && leb c 90) || ((leb 97 c && leb c 122) || eqb c 45))

abbrev pub plain : Text → Bool
plain [] = true
plain (c ∷ s) = plain_char c && plain s

-- a text of letters, digits and dashes that is not empty, such as a uuid
abbrev pub IsPlain : Text → Type 0
IsPlain id = (id ≢ []) × (plain id ≡ true)

abbrev pub api_path : List Text → List Text
api_path p = bytes "api" ∷ bytes "v1" ∷ p

abbrev pub poll_url : Text → Text → Text
poll_url base id = base ++ (bytes "/api/v1/providers/" ++ (id ++ bytes "/jobs?wait=25"))

-- The URLs below `base`, which the agent builds, can be parsed and have these paths.
pub record IsLinked (w : Wire) (base : Text) : Type 0 where
  pub poll_parses : (id : Text) → IsPlain id → w.bad_url (poll_url base id) ≡ none
  pub poll_path :
      (id : Text)
      → IsPlain id
      → w.path (poll_url base id) ≡ api_path (bytes "providers" ∷ id ∷ bytes "jobs" ∷ [])
  pub report_parses : w.bad_url (base ++ bytes "/api/v1/vms/report") ≡ none
  pub report_path :
      w.path (base ++ bytes "/api/v1/vms/report") ≡ api_path (bytes "vms" ∷ bytes "report" ∷ [])
  pub register_parses : w.bad_url (base ++ bytes "/api/v1/providers/register") ≡ none
  pub register_path :
      w.path (base ++ bytes "/api/v1/providers/register")
      ≡ api_path (bytes "providers" ∷ bytes "register" ∷ [])
  pub beat_parses : w.bad_url (base ++ bytes "/api/v1/providers/heartbeat") ≡ none
  pub beat_path :
      w.path (base ++ bytes "/api/v1/providers/heartbeat")
      ≡ api_path (bytes "providers" ∷ bytes "heartbeat" ∷ [])

-- What the agent is left with, by what became of the answer
abbrev pub come_back : Option Text → Answer → Answer
come_back none a = a
come_back (some e) a = unanswered e

module _ (w : Wire) where
  abbrev pub to_request : Sent → Request
  to_request req = record {
    method = req.method;
    path = w.path req.url;
    authorization = req.authorization;
    body = w.print req.body;
  }

  abbrev pub to_answer : Response → Answer
  to_answer res = answered res.code (w.print_payload res.body)

  module _ (r : Redis) (cfg : Config) (env : Env) where
    -- the server in this state, as the agent meets it
    abbrev pub network : Server r → Network
    network s = record {
      bad_url = w.bad_url;
      answer = λ req. come_back (w.lost req) (to_answer (serve r cfg env (to_request req) s).0);
      read_register = w.read_register;
      read_job = w.read_job;
    }

    -- what the requests that were sent, the latest first, make of the server
    abbrev pub deliver : List Sent → Server r → Server r
    deliver [] s = s
    deliver (req ∷ reqs) s = (serve r cfg env (to_request req) (deliver reqs s)).1

    abbrev pub exchange :
        {A : Type 0} → (Network → List Sent → A × List Sent) → Server r → A × Server r
    exchange call s = let (a, sent) = call (network s) [] in (a, deliver sent s)

module _ (w : Wire) (r : Redis) (cfg : Config) (env : Env) (s : Server r) where
  -- the reports of a job that was handled
  abbrev pub reported : Option Agent → Option Agent × Server r
  reported none = (none, s)
  reported (some a) = (some a, deliver w r cfg env a.sent s)

module _ (w : Wire) (r : Redis) (cfg : Config) (os : Os) (gen : Keygen) (bin : Binary)
    (platform : Platform) (dev : Device) (vmm : Vmm) (ssh_port : ℤ) where
  -- what the loop of Run does with the outcome of a poll; the goroutine runs at once
  unfoldable pub act : Env → Joined → Pass → Agent → Server r → Option Agent × Server r
  act env j retry a s = (some a, s)
  act env j next a s = (some a, s)
  act env j (handle job) a s = reported w r cfg env s (
      handle_job (network w r cfg env s) j.client dev os vmm job j.mode j.response.tunnel_port
        ssh_port j.response.wg_ip (record a { sent = [] }))

  -- One turn of the loop. The two requests meet what is outside the program at two times.
  unfoldable pub turn : Env → Env → Joined → Agent → Server r → Option Agent × Server r
  unfolding act
  turn env env' j a s =
      let (pass, s') = exchange w r cfg env (λ net. poll_pass os gen bin net platform j) s in
      act env' j pass a s'
