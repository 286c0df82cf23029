-- ===== src/Tests/Links.antt =====
-- The theorems on the agent and the server together, at a concrete link.
use provider_engine.Base.{
  ℕ, zero, suc, Text, bytes, pos, List, [], ◌∷◌, ◌++◌, Bool, true, false, Option, none, ◌≡◌, refl,
  ap, eqb, if◌then◌else◌, arith,
}
use provider_engine.Exec.{Result, ok}
use provider_engine.Store.Redis.Memory.{memory}
use provider_engine.World.{World}
use provider_engine.Store.Models.{Job}
use provider_engine.Scheduler.{poll_for_provider}
use provider_engine.Api.Http.{ReportBody, value}
use provider_engine.Api.Server.{Env}
use provider_engine.Provider.Client.{DeployJob, RegisterResponse}
use provider_engine.Provider.Run.{Joined}
use provider_engine.Link.{Wire, IsLinked, plain, api_path}
use provider_engine.Tests.Setting.{world_with_job, env_now, codec, database, job_id, provider_id}

unfoldable pub skip : ℕ → Text → Text
skip zero s = s
skip (suc n) [] = []
skip (suc n) (c ∷ s) = skip n s

unfoldable pub until_slash : Text → Text
until_slash [] = []
until_slash (c ∷ s) = if eqb c 47 then [] else c ∷ until_slash s

unfoldable pub has_slash : Text → Bool
has_slash [] = false
has_slash (c ∷ s) = if eqb c 47 then true else has_slash s

-- heartbeat or register
unfoldable pub posted_to : Text → Text
posted_to [] = []
posted_to (c ∷ s) = if eqb c 104 then bytes "heartbeat" else bytes "register"

unfoldable pub provider_path : Text → List Text
unfolding until_slash has_slash posted_to
provider_path s =
    if has_slash s
    then api_path (bytes "providers" ∷ until_slash s ∷ bytes "jobs" ∷ [])
    else api_path (bytes "providers" ∷ posted_to s ∷ [])

-- what follows /api/v1/
unfoldable pub below_path : Text → List Text
unfolding provider_path skip
below_path [] = []
below_path (c ∷ s) =
    if eqb c 118 then api_path (bytes "vms" ∷ bytes "report" ∷ []) else provider_path (skip 9 s)

abbrev pub base : Text
base = bytes "http://cp"

until_slash-append :
    (id s : Text)
    → plain id ≡ true
    → (until_slash (id ++ 47 ∷ s) ≡ id) × (has_slash (id ++ 47 ∷ s) ≡ true)
unfolding until_slash has_slash
until_slash-append [] s h = (refl, refl)
until_slash-append (c ∷ id) s h =
    let other : eqb c 47 ≡ false = ground arith in
    let later : plain id ≡ true = ground arith in
    let (same, more) = until_slash-append id s later in rw other (ap (λ t. c ∷ t) same, more)

provider_path-id :
    (id s : Text)
    → plain id ≡ true
    → provider_path (id ++ 47 ∷ s) ≡ api_path (bytes "providers" ∷ id ∷ bytes "jobs" ∷ [])
unfolding provider_path
provider_path-id id s h = let (same, more) = until_slash-append id s h in rw (more, same) refl

-- what the server hands out, and the report of it
abbrev pub handed : DeployJob
handed = record {
  job_id = job_id;
  image_url = bytes "image";
  cpu_cores = pos 1;
  memory_mb = pos 512;
  disk_gb = pos 1;
  ssh_pubkey = [];
  env = [];
}

abbrev pub report : ReportBody
report = record {
  job_id = job_id;
  provider_id = provider_id;
  vm_ip = bytes "10.99.1.1";
  port = pos 8022;
  status = bytes "running";
  error = [];
}

abbrev pub response : RegisterResponse
response = record {
  provider_id = provider_id;
  wg_config = [];
  tunnel_port = pos 40001;
  wg_ip = bytes "10.99.1.1";
}

abbrev pub wire : Wire
wire = record {
  path = λ url. below_path (skip 17 url);
  bad_url = λ url. none;
  print = λ b. [];
  print_payload = λ p. [];
  read_register = λ t. ok response;
  read_job = λ t. ok handed;
  lost = λ req. none;
}

pub wire-IsLinked : IsLinked wire base
unfolding below_path skip
wire-IsLinked = record {
  poll_parses = λ id h. refl;
  poll_path = λ id h. provider_path-id id (bytes "jobs?wait=25") h.1;
  report_parses = refl;
  report_path = refl;
  register_parses = refl;
  register_path = refl;
  beat_parses = refl;
  beat_path = refl;
}

abbrev pub env_linked : Env
env_linked = record env_now { codec = record codec { report_body = λ t. value report } }

abbrev pub joined : Joined
joined = record {
  client = record { base_url = base; token = bytes "t"; provider_id = provider_id };
  mode = bytes "ssh";
  response = response;
}

abbrev polled : Result (Option Job) × World memory
polled = poll_for_provider memory database provider_id 25 world_with_job
