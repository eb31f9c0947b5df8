-- ===== src/Witnesses/Session.antt =====
-- session.go at a concrete session.
use minecraft_ping.Base.{◌≡◌, refl, false, [], ◌∷◌, ok, none, some, arith}
use minecraft_ping.Net.{v4}
use minecraft_ping.Client.{ProbeSample}
use minecraft_ping.Session.{
  SessionConfig, banner, pong_from, Session, World, session_loop, begun, exit_code, turn, end_turn,
  probed,
}
use minecraft_ping.Session.Undisturbed.{IsUndisturbed, undisturbed-sends_all}
use minecraft_ping.Session.Ending.{IsFinished, session-ends, exit_code-zero}

abbrev config : SessionConfig
config = record {
  count = 2;
  deadline = 1000;
  timeout = 100;
  interval = 10;
  quiet = false;
  timestamp = false;
  numeric = false;
}

abbrev sample : ProbeSample
sample = record { latency = 5; remote = record { addr = v4 1; port = 2 } }

-- A clock that moves by one at each reading, and a server that answers.
abbrev world : World (Unit {0})
world = record {
  now = λ k. k;
  ctx_done = λ seq. false;
  sleep_fails = λ seq time. false;
  probe = λ p seq timeout. ok sample;
  observe = λ s p. p;
  banner_of = λ p numeric. [];
  label_of = λ p numeric. [];
}

session-ends_example :
    (s : Session (Unit {0})) × (session_loop world config 1000 3 (begun world config tt) ≡ some s)
    × IsFinished config s
session-ends_example = session-ends world config 1000 tt (omega arith)

abbrev last : Session (Unit {0})
last = record {
  transmitted = 2;
  received = 2;
  latencies = 5 ∷ 5 ∷ [];
  seq = 3;
  ticks = 9;
  prepared = tt;
  lines = banner [] ∷ pong_from none sample.remote 1 5 ∷ pong_from none sample.remote 2 5 ∷ [];
  asked = 100 ∷ 100 ∷ [];
}

runs : session_loop world config 1000 3 (begun world config tt) ≡ some last
unfolding session_loop turn end_turn probed
runs = refl

zero_code : exit_code world config last ≡ 0
unfolding exit_code
zero_code = refl

exit_code-zero_example : (last.received ≡ config.count) × (last.transmitted ≡ config.count)
exit_code-zero_example =
    exit_code-zero world config 1000 3 tt last (omega arith) (omega arith) runs zero_code

abbrev no_deadline : SessionConfig
no_deadline = record config { deadline = 0 }

calm : IsUndisturbed world no_deadline
calm = record { no_deadline = refl; lasting = λ seq. refl; sleeps = λ seq time. refl }

calm_runs :
    session_loop world no_deadline 1000 3 (begun world no_deadline tt)
    ≡ some (record last { ticks = 4 })
unfolding session_loop turn end_turn probed
calm_runs = refl

undisturbed-sends_all_example : (record last { ticks = 4 }).transmitted ≡ no_deadline.count
undisturbed-sends_all_example =
    undisturbed-sends_all world no_deadline 1000 3 tt (record last { ticks = 4 }) calm (omega arith)
      calm_runs
