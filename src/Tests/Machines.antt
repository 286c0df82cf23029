-- ===== src/Tests/Machines.antt =====
-- The theorems on the machines and the keys of a provider, at concrete inputs.
use provider_engine.Base.{bytes, pos, [], ◌∷◌, ◌≡◌, refl, ◌==◌}
use provider_engine.Base.{true, none, All}
use provider_engine.Exec.{ok, err}
use provider_engine.Errors.{driver}
use provider_engine.Machine.{
  Machine, mkdir_all, write_file, read_file, read_or_empty, run_output_stdin,
}
use provider_engine.Provider.Vm.Firecracker.{
  Vms, FirecrackerVm, SpawnConfig, configure, spawn, wait_for_socket,
}
use provider_engine.Provider.Vm.Firecracker.Booting.{Sent, requests, configure-Sent}
use provider_engine.Provider.Vm.Firecracker.Waiting.{IsAwaited, wait_for_socket-IsAwaited}
use provider_engine.Provider.Vm.Firecracker.Processes.{IsBalanced, spawn-IsBalanced}
use provider_engine.Provider.Vm.Container.{ContainerConfig, spawn_container}
use provider_engine.Provider.Vm.Container.Removed.{IsLeft, spawn_container-IsLeft}
use provider_engine.Provider.Wireguard.{
  Keygen, is_termux, paths, dir_of, clamp, new_keypair, generate_keypair,
}
use provider_engine.Provider.Wireguard.Restart.{generate_keypair-restarts}
use provider_engine.Store.Redis.Memory.{memory, no_data, memory-IsRedis}
use provider_engine.TokenCommand.{TokenSource, Flags, Session, token_generate}
use provider_engine.TokenCommand.Counted.{IsPrinted, IsAccepted, token_generate-IsAccepted}
use provider_engine.Provider.Client.{Network, answered}
use provider_engine.Provider.Attestation.{Binary}
use provider_engine.Provider.Agent.{resolve_mode}
use provider_engine.Provider.Run.{Config, Platform, Site, join}
use provider_engine.Provider.Run.Joining.{IsJoined, join-IsJoined}
use provider_engine.Tests.Hosts.{calm, bare}
use provider_engine.Tests.Agents.{vmm}

abbrev vms : Vms
vms = record { machine = bare; ip_counter = 1; puts = [] }

abbrev spawn_config : SpawnConfig
spawn_config = record {
  job_id = bytes "0a1b2c3d-0000";
  image_path = bytes "/img/rootfs.ext4";
  cpu_cores = pos 2;
  memory_mb = pos 512;
  ssh_pub_key = bytes "ssh-ed25519 AAAA";
}

abbrev vm : FirecrackerVm
vm = record {
  job_id = bytes "0a1b2c3d-0000";
  id = bytes "0a1b2c3d-0000";
  socket_path = bytes "/srv/dcp/vms/0a1b2c3d-0000/api.sock";
  tap_name = bytes "tap-0a1b2c3d";
  vm_ip = bytes "172.16.5.2";
  pid = 42;
}

abbrev container_config : ContainerConfig
container_config = record {
  job_id = bytes "j1";
  image_ref = bytes "ubuntu";
  cpu_cores = pos 2;
  memory_mb = pos 512;
  ssh_pub_key = bytes "ssh-ed25519 AAAA";
}

configure-Sent_example :
    Sent
      (requests vm spawn_config)
      (configure calm vmm vm spawn_config vms).0
      []
      (configure calm vmm vm spawn_config vms).1.puts
configure-Sent_example = configure-Sent calm vmm vm spawn_config vms

wait_for_socket-IsAwaited_example :
    IsAwaited
      (bytes "/srv/dcp/vms/j/api.sock")
      3000
      (wait_for_socket calm vmm (bytes "/srv/dcp/vms/j/api.sock") bare)
wait_for_socket-IsAwaited_example =
    wait_for_socket-IsAwaited calm vmm (bytes "/srv/dcp/vms/j/api.sock") bare

spawn-IsBalanced_example : IsBalanced [] (spawn calm vmm spawn_config vms)
spawn-IsBalanced_example = spawn-IsBalanced calm vmm spawn_config vms

spawn_container-IsLeft_example :
    IsLeft calm container_config bare (spawn_container calm container_config bare)
spawn_container-IsLeft_example = spawn_container-IsLeft calm container_config bare

-- the keys are printed as one text, and the random bytes are zeros
abbrev pub keygen : Keygen
keygen = record { random = λ m. ok []; encode = λ key. bytes "cHJpdmF0ZQ==" }

abbrev pub keyed : Machine
keyed = (generate_keypair calm keygen bare).1

generate_keypair-restarts_example :
    generate_keypair calm keygen keyed ≡ (ok (bytes "cHJpdmF0ZQ==", bytes "Token: abc"), keyed)
unfolding generate_keypair new_keypair paths is_termux clamp dir_of ◌==◌ mkdir_all write_file
    read_file read_or_empty run_output_stdin
generate_keypair-restarts_example =
    generate_keypair-restarts calm keygen (bytes "cHJpdmF0ZQ==", bytes "Token: abc") bare keyed
      (λ key. refl) refl (refl, refl, refl)

abbrev source : TokenSource
source = record { random = λ n. ok (n ∷ []); hex = λ key. key }

abbrev session : Session memory
session = record { machine = bare; redis = no_data; printed = [] }

abbrev two_tokens : Flags
two_tokens = record {
  count = pos 2;
  with_spire = true;
  redis_addr = bytes "redis://localhost:6379";
}

token_generate-IsAccepted_example :
    let end = token_generate memory calm source none two_tokens session in
    IsPrinted memory calm source ((0 ∷ []) ∷ (1 ∷ []) ∷ []) end
    × All (IsAccepted memory end.1.redis) end.1.printed
token_generate-IsAccepted_example =
    token_generate-IsAccepted memory memory-IsRedis calm source none two_tokens session refl

abbrev network : Network
network = record {
  bad_url = λ url. none;
  answer = λ req. answered 200 [];
  read_register = λ t. ok (record {
    provider_id = bytes "p1";
    wg_config = bytes "[Interface]";
    tunnel_port = pos 40000;
    wg_ip = bytes "10.99.1.1";
  });
  read_job = λ t. err (driver t);
}

abbrev pub binary : Binary
binary = record {
  hostname = bytes "host";
  executable = ok (bytes "/usr/bin/dcp-provider");
  content = ok;
  digest = λ t. t;
}

abbrev pub platform : Platform
platform = record {
  num_cpu = pos 4;
  meminfo = none;
  parse_float = λ t. 0;
  os = bytes "linux";
  arch = bytes "amd64";
}

abbrev pub agent_config : Config
agent_config = record {
  control_plane_url = bytes "http://cp";
  token = bytes "t";
  location = bytes "eu";
  mode = bytes "auto";
}

abbrev site : Site
site = record { machine = bare; sent = [] }

join-IsJoined_example :
    IsJoined calm keygen binary network platform agent_config
      (bytes "container")
      site
      (ok (bytes "cHJpdmF0ZQ==", bytes "Token: abc"), keyed)
      (join calm keygen binary network platform agent_config site)
unfolding generate_keypair new_keypair paths is_termux clamp dir_of ◌==◌ mkdir_all write_file
    read_file read_or_empty run_output_stdin resolve_mode
join-IsJoined_example = join-IsJoined calm keygen binary network platform agent_config site refl
