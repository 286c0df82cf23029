-- ===== src/Provider/Run.antt =====
-- dcp-provider/internal/agent/agent.go: Run up to its loop, one pass of the loop, and one tick of
-- the heartbeat. The goroutines that a pass starts are in its result; the text of runtime.GOOS and
-- of runtime.GOARCH are parameters.
pub mod Joining
use provider_engine.Base.{ℕ, Text, bytes, ℤ, pos, List, [], ◌∷◌, Option, none, some}
use provider_engine.Exec.{Result, ok, err, Exec, pure, ◌>>=◌, ◌>>◌}
use provider_engine.Machine.{Machine, Os, Step, has_file}
use provider_engine.Provider.Client.{
  Network, Client, Sent, RegisterRequest, RegisterResponse, DeployJob, register, poll_jobs,
  heartbeat,
}
use provider_engine.Provider.Agent.{resolve_mode}
use provider_engine.Provider.Meminfo.{resources, cpu_load, mem_free_mb}
use provider_engine.Provider.Wireguard.{Keygen, is_termux, generate_keypair, write_config}
use provider_engine.Provider.Attestation.{Info, Binary, collect}

pub record Config : Type 0 where
  pub control_plane_url : Text
  pub token : Text
  pub location : Text
  pub mode : Text

-- What Run reads of the system it runs on: its resources, its name and its architecture
pub record Platform : Type 0 where
  pub num_cpu : ℤ
  -- /proc/meminfo and strconv.ParseFloat
  pub meminfo : Option Text
  pub parse_float : Text → ℕ
  pub os : Text
  pub arch : Text

pub record Site : Type 0 where
  pub machine : Machine
  pub sent : List Sent

-- what Run keeps for its loop
pub record Joined : Type 0 where
  pub client : Client
  pub mode : Text
  pub response : RegisterResponse

abbrev pub on_machine : {A : Type 0} → Step A → Exec Site A
on_machine step s = let (r, m) = step s.machine in (r, record { machine = m; sent = s.sent })

abbrev pub on_network : {A : Type 0} → Exec (List Sent) A → Exec Site A
on_network call s = let (r, l) = call s.sent in (r, record { machine = s.machine; sent = l })

-- a failure of Collect leaves the empty Info
abbrev pub or_empty : Result Info → Info
or_empty (ok info) = info
or_empty (err e) = record { machine_id = []; binary_hash = [] }

abbrev pub tried : Step Info → Step Info
tried step m = let (r, m') = step m in (ok (or_empty r), m')

-- what a pass of the loop goes on with
pub data Pass : Type 0 where
  -- after a pause of five seconds, at once, or with a goroutine for the job
  retry next : Pass
  handle : DeployJob → Pass

abbrev pub pass_of : Result (Option DeployJob) → Pass
pass_of (err e) = retry
pass_of (ok none) = next
pass_of (ok (some job)) = handle job

module _ (os : Os) (gen : Keygen) (bin : Binary) (net : Network) (platform : Platform) where
  abbrev pub mode_for : Config → Machine → Text
  mode_for cfg m = resolve_mode (has_file (bytes "/dev/kvm") m) (is_termux os) cfg.mode

  abbrev pub registration : Config → Text → Text → Info → RegisterRequest
  registration cfg mode pub_key attest = record {
    token = cfg.token;
    public_key = pub_key;
    resources = resources platform.num_cpu platform.meminfo;
    location = cfg.location;
    mode = mode;
    meta =
        (bytes "machine_id", attest.machine_id)
        ∷ (bytes "binary_hash", attest.binary_hash)
        ∷ (bytes "os", platform.os)
        ∷ (bytes "arch", platform.arch)
        ∷ [];
  }

  abbrev pub client_of : Config → Text → Client
  client_of cfg id = record {
    base_url = cfg.control_plane_url;
    token = cfg.token;
    provider_id = id;
  }

  -- step 5, with the answer of step 4
  unfoldable pub apply : Config → Text → RegisterResponse → Exec Site Joined
  apply cfg mode response = do
    on_machine (write_config os response.wg_config)
    pure (record { client = client_of cfg response.provider_id; mode = mode; response = response })

  -- steps 3 to 5, with the mode and the keys
  unfoldable pub enrol : Config → Text → Text × Text → Exec Site Joined
  unfolding apply
  enrol cfg mode keys = do
    attest ← on_machine (tried (collect os bin))
    response ← on_network (register net (client_of cfg []) (registration cfg mode keys.1 attest))
    apply cfg mode response

  -- steps 1 to 5 of Run
  unfoldable pub join : Config → Exec Site Joined
  unfolding enrol
  join cfg = do
    mode ← λ s. (ok (mode_for cfg s.machine), s)
    keys ← on_machine (generate_keypair os gen)
    enrol cfg mode keys

  unfoldable pub poll_pass : Joined → List Sent → Pass × List Sent
  poll_pass j l = let (r, l') = poll_jobs net j.client l in (pass_of r, l')

  -- A tick, with what /proc/loadavg and /proc/meminfo hold; a failure is only logged.
  unfoldable pub beat : Joined → Option Text → Option Text → List Sent → List Sent
  beat j loadavg meminfo l =
      (heartbeat net j.client
        (record {
          provider_id = j.client.provider_id;
          active_vms = pos 0;
          cpu_load = cpu_load platform.parse_float loadavg;
          mem_free_mb = mem_free_mb meminfo;
        })
        l).1
