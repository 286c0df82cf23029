-- ===== src/Provider/Client/Polling.antt =====
-- When a poll of the client returns a job.
use provider_engine.Base.{bytes, List, ◌∷◌, none, some, ◌≡◌, ◌↔◌, refl, inl, inr, ◌⊎◌, arith}
use provider_engine.Errors.{Error}
use provider_engine.Exec.{Result, ok, err}
use provider_engine.Provider.Client.{
  Network, Client, Sent, Answer, unanswered, answered, empty, DeployJob, request_of, send,
  poll_answer, jobs_url, poll_jobs,
}

read_cases :
    (x : Result DeployJob) → ((e : Error) × (x ≡ err e)) ⊎ ((job : DeployJob) × (x ≡ ok job))
read_cases (ok job) = inr (job, refl)
read_cases (err e) = inl (e, refl)

module _ (net : Network) (c : Client) where
  abbrev pub IsJob : Answer → DeployJob → Type 0
  IsJob (unanswered e) job = ⊥
  IsJob (answered code text) job = (code ≡ 200) × (net.read_job text ≡ ok job)

  abbrev pub IsNoJob : Answer → Type 0
  IsNoJob (unanswered e) = ⊥
  IsNoJob (answered code text) = code ≡ 204

  poll_answer-IsJob_iff :
      (a : Answer) (job : DeployJob) → (poll_answer net c a ≡ ok (some job)) ↔ IsJob a job
  unfolding poll_answer
  poll_answer-IsJob_iff (unanswered e) job = ground arith
  poll_answer-IsJob_iff (answered code text) job = elim (read_cases (net.read_job text)) [
    | inl (e, h) ↦ ground arith
    | inr (j, h) ↦ ground arith
  ]

  poll_answer-IsNoJob_iff : (a : Answer) → (poll_answer net c a ≡ ok none) ↔ IsNoJob a
  unfolding poll_answer
  poll_answer-IsNoJob_iff (unanswered e) = ground arith
  poll_answer-IsNoJob_iff (answered code text) = elim (read_cases (net.read_job text)) [
    | inl (e, h) ↦ ground arith
    | inr (j, h) ↦ ground arith
  ]

  abbrev pub poll_request : Sent
  poll_request = request_of net c (bytes "GET") (jobs_url net c) empty

  -- A poll sends one GET request with the provider's id in its URL and the token as a bearer; it
  -- returns a job exactly if the answer is 200 with a body that decodes to that job, and no job
  -- exactly if the answer is 204. It assumes that the URL can be parsed.
  poll_jobs-IsJob_iff :
      (log : List Sent)
      → net.bad_url (jobs_url net c) ≡ none
      → ((poll_jobs net c log).1 ≡ poll_request ∷ log)
        × ((job : DeployJob)
            → ((poll_jobs net c log).0 ≡ ok (some job)) ↔ IsJob (net.answer poll_request) job)
        × (((poll_jobs net c log).0 ≡ ok none) ↔ IsNoJob (net.answer poll_request))
  unfolding poll_jobs send
  poll_jobs-IsJob_iff log h = rw h (
    refl,
    (λ job. poll_answer-IsJob_iff (net.answer poll_request) job),
    poll_answer-IsNoJob_iff (net.answer poll_request),
  )
