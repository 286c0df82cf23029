-- ===== src/Provider/Agent/Report.antt =====
-- What the handling of a job reports and relays.
use provider_engine.Base.{
  Text, bytes, ℤ, pos, List, [], ◌∷◌, ◌++◌, Option, some, none, ◌≡◌, ◌≢◌, refl, ◌⊎◌, inl, inr,
}
use provider_engine.Errors.{Error, message}
use provider_engine.Exec.{Result, ok, err, continue, pure}
use provider_engine.Provider.Client.{
  Network, Client, Sent, Body, DeployJob, VmReport, reporting, request_of, report_vm, post, send,
  post_answer,
}
use provider_engine.Machine.{Os}
use provider_engine.Provider.Keys.{Device, File}
use provider_engine.Provider.Vm.Firecracker.{Vms, Vmm}
use provider_engine.Provider.Agent.{
  Mode, firecracker, container, ssh, other, mode_of, Agent, Spawned, started, failed, panicked,
  unstarted, spawn, running_report, relays, finish, handle_job, bind_address,
}

module _ (net : Network) (c : Client) where
  abbrev pub report_url : Text
  report_url = c.base_url ++ bytes "/api/v1/vms/report"

  pub send-sent :
      (method url : Text) (body : Body) (log : List Sent)
      → net.bad_url url ≡ none
      → (send net c method url body log).1 ≡ request_of net c method url body ∷ log
  unfolding send
  send-sent method url body log h = rw h refl

  pub ended :
      {A : Type 0} (f : A → Result Text) (out : Result A × List Sent) {log : List Sent}
      → out.1 ≡ log
      → (continue (λ _. pure tt) (continue (λ a l. (f a, l)) out)).1 ≡ log
  ended f (ok a, l) h = kept (f a) h
    where
      kept :
          (o : Result Text) {l log : List Sent}
          → l ≡ log
          → (continue {S = List Sent} {B = Unit {0}} (λ _. pure tt) (o, l)).1 ≡ log
      kept (ok t) h = h
      kept (err e) h = h
  ended f (err e, l) h = h

  report_vm-sent :
      (r : VmReport) (log : List Sent)
      → net.bad_url report_url ≡ none
      → (report_vm net c r log).1 ≡ request_of net c (bytes "POST") report_url (reporting r) ∷ log
  unfolding report_vm post
  report_vm-sent r log h =
      ended (post_answer net c (bytes "/api/v1/vms/report"))
        (send net c (bytes "POST") report_url (reporting r) log)
        (send-sent (bytes "POST") report_url (reporting r) log h)

  -- the one request of a report
  abbrev pub report_request : VmReport → Sent
  report_request r = request_of net c (bytes "POST") report_url (reporting r)

module _ (mode : Mode) (tunnel_port : ℤ) (wg_ip : Text) where
  -- A relay to this address was added, but none in the mode ssh.
  abbrev pub IsRelayed : Text → Agent → Agent → Type 0
  IsRelayed ip a a' =
      ((mode ≡ ssh) × (a'.proxies ≡ a.proxies))
      ⊎ ((mode ≢ ssh)
          × (a'.proxies
              ≡ record { bind_ip = bind_address wg_ip; local_port = tunnel_port; vm_ip = ip }
                ∷ a.proxies))

-- the report of a job that this provider owes
abbrev pub due : Client → DeployJob → Text → ℤ → Text → Text → VmReport
due c job ip port status error = record {
  job_id = job.job_id;
  provider_id = c.provider_id;
  vm_ip = ip;
  port = port;
  status = status;
  error = error;
}

abbrev pub due_running : Client → DeployJob → Text → ℤ → VmReport
due_running c job ip port = due c job ip port (bytes "running") []

abbrev pub due_failed : Client → DeployJob → Error → VmReport
due_failed c job e = due c job [] (pos 0) (bytes "failed") (message e)

module _ (net : Network) (c : Client) (mode : Mode) (tunnel_port : ℤ) (wg_ip : Text) where
  -- What handleJob leaves, by what the switch left: a report that the machine runs and a relay to
  -- it, a report of the failure and no relay, or the end of the program
  abbrev pub IsHandled : DeployJob → Spawned → Agent → Option Agent → Type 0
  IsHandled job out a none = out ≡ panicked
  IsHandled job (started ip port) a (some a') =
      (a'.sent ≡ report_request net c (due_running c job ip port) ∷ a.sent)
      × IsRelayed mode tunnel_port wg_ip ip a a'
  IsHandled job (failed e) a (some a') =
      (a'.sent ≡ report_request net c (due_failed c job e) ∷ a.sent) × (a'.proxies ≡ a.proxies)
  IsHandled job unstarted a (some a') =
      (a'.sent ≡ report_request net c (due_running c job [] (pos 0)) ∷ a.sent)
      × IsRelayed mode tunnel_port wg_ip [] a a'
  IsHandled job panicked a (some a') = ⊥

relays-cases :
    (mode : Mode) (tunnel_port : ℤ) (wg_ip ip : Text) (a : Agent) (keys : File) (vms : Vms)
    (sent : List Sent)
    → IsRelayed mode tunnel_port wg_ip ip a (record {
      keys = keys;
      vms = vms;
      proxies = relays mode tunnel_port wg_ip ip a.proxies;
      sent = sent;
    })
unfolding relays
relays-cases ssh t wg_ip ip a keys vms sent = inl (refl, refl)
relays-cases firecracker t wg_ip ip a keys vms sent = inr ((λ e. cc e), refl)
relays-cases container t wg_ip ip a keys vms sent = inr ((λ e. cc e), refl)
relays-cases other t wg_ip ip a keys vms sent = inr ((λ e. cc e), refl)

-- what the switch of handleJob gives
abbrev pub spawned : Device → Os → Vmm → DeployJob → Text → ℤ → ℤ → Text → Agent → Spawned
spawned d os vmm job mode tunnel_port ssh_port wg_ip a =
    (spawn d os vmm (mode_of mode) job tunnel_port ssh_port wg_ip a.keys a.vms).0

module _ (net : Network) (c : Client) (parses : net.bad_url (report_url net c) ≡ none) where
  finish-IsHandled :
      (job : DeployJob) (mode : Mode) (tunnel_port : ℤ) (wg_ip : Text) (out : Spawned) (keys : File)
      (vms : Vms) (a : Agent)
      → IsHandled net c mode tunnel_port wg_ip job out a
          (finish net c mode job tunnel_port wg_ip out (record a { keys = keys; vms = vms }))
  unfolding finish
  finish-IsHandled job mode t wg_ip (started ip port) keys vms a = (
    report_vm-sent net c _ a.sent parses,
    relays-cases mode t wg_ip ip a keys vms
        (report_vm net c (running_report c job ip port) a.sent).1,
  )
  finish-IsHandled job mode t wg_ip (failed e) keys vms a =
      (report_vm-sent net c _ a.sent parses, refl)
  finish-IsHandled job mode t wg_ip unstarted keys vms a = (
    report_vm-sent net c _ a.sent parses,
    relays-cases mode t wg_ip [] a keys vms
        (report_vm net c (running_report c job [] (pos 0)) a.sent).1,
  )
  finish-IsHandled job mode t wg_ip panicked keys vms a = refl

  module _ (d : Device) (os : Os) (vmm : Vmm) (job : DeployJob) (mode : Text)
      (tunnel_port ssh_port : ℤ) (wg_ip : Text) where
    pub spawned-IsHandled :
        (a : Agent)
        → IsHandled net c
            (mode_of mode)
            tunnel_port
            wg_ip
            job
            (spawned d os vmm job mode tunnel_port ssh_port wg_ip a)
            a
            (handle_job net c d os vmm job mode tunnel_port ssh_port wg_ip a)
    unfolding handle_job
    spawned-IsHandled a =
        let (out, keys, vms) =
          spawn d os vmm (mode_of mode) job tunnel_port ssh_port wg_ip a.keys a.vms in
        finish-IsHandled job (mode_of mode) tunnel_port wg_ip out keys vms a
