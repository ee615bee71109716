-- ===== src/TestServer/Injection.antt =====
-- internal/ynabtest/server.go: FailWith and the handler, over a history of calls.
use ynab_go.Base.{
  ℕ, suc, ◌+◌, ◌≤◌, ◌≡◌, ◌≢◌, refl, Option, List, [], ◌∷◌, map, arith, Bytes, ◌==◌, if◌then◌else◌,
}
use ynab_go.TestServer.{
  Route, Request, Server, new_server, fail_with, Answer, injected, no_route, unreadable, serving,
  serve, handle, Step, inject, arrive, run,
}

-- How many answers were injected, and how often FailWith was called.
abbrev pub injections : List Answer → ℕ
injections [] = 0
injections (injected status id name ∷ answers) = suc (injections answers)
injections (no_route ∷ answers) = injections answers
injections (unreadable f ∷ answers) = injections answers
injections (serving status raw ∷ answers) = injections answers

abbrev pub failures : List Step → ℕ
failures [] = 0
failures (inject status id name ∷ steps) = suc (failures steps)
failures (arrive r ∷ steps) = failures steps

-- One if a failure waits for its request.
abbrev pending : Server → ℕ
pending s = if s.fail_status == 0 then 0 else 1

module _ (top_keys : Bytes → List Bytes) (read_file : Bytes → Option Bytes) (rts : List Route) where
  run_plain :
      (reqs : List Request)
      → run top_keys read_file rts (map arrive reqs) new_server
        ≡ (new_server, map (serve top_keys read_file rts) reqs)
  unfolding run handle
  run_plain [] = refl
  run_plain (r ∷ reqs) = ground (arith, run_plain reqs)

  -- A failure with a status other than 0 answers the next request, whatever was injected before it,
  -- and every later request is served as if there had been none.
  pub run-fail_with :
      (status : ℕ) (id name : Bytes) (s : Server) (r : Request) (reqs : List Request)
      → status ≢ 0
      → run top_keys read_file rts (map arrive (r ∷ reqs)) (fail_with status id name s)
        ≡ (new_server, injected status id name ∷ map (serve top_keys read_file rts) reqs)
  unfolding run handle fail_with
  run-fail_with status id name s r reqs h = ground (arith, run_plain reqs)

  serve_plain :
      (r : Request) (answers : List Answer)
      → injections (serve top_keys read_file rts r ∷ answers) ≡ injections answers
  unfolding serve
  serve_plain r answers = ground arith

  run_bound :
      (steps : List Step) (s : Server)
      → injections (run top_keys read_file rts steps s).1 ≤ failures steps + pending s
  unfolding run handle fail_with
  run_bound [] s = ground arith
  run_bound (inject status id name ∷ steps) s =
      ground (arith, run_bound steps (fail_with status id name s))
  run_bound (arrive r ∷ steps) s = ground (
    arith,
    run_bound steps new_server,
    serve_plain r (run top_keys read_file rts steps new_server).1,
  )

  -- Over any history of a new server, at most as many answers are injected as FailWith was called.
  pub run-failures :
      (steps : List Step)
      → injections (run top_keys read_file rts steps new_server).1 ≤ failures steps
  run-failures steps = ground (arith, run_bound steps new_server)
