-- ===== src/Witnesses/Dialing.antt =====
-- client.go `dialCandidates` at three candidates.
use minecraft_ping.Base.{ℕ, ◌≡◌, ◌≤◌, refl, true, false, List, [], ◌∷◌}
use minecraft_ping.Net.{v4}
use minecraft_ping.Address.Candidates.{DialCandidate}
use minecraft_ping.Client.Dialing.{
  waiting, dialing, dialed, sending, finished, worker, connected, failed, collecting, returned,
  System, timer_fires, stops_waiting, dial_succeeds, passes, sends, works, receives_connection,
  started, Reach, start, later, DialsTo, connected_to, some_connects,
}
use minecraft_ping.Client.Dialing.Whole.{Tells, dial_candidates-Tells}
use minecraft_ping.Client.Dialing.Each.{Answers, dial-Answers}
use minecraft_ping.Client.Dialing.Ending.{
  steps, steps-le, Moves, collecting-Moves, Later, now, then, Kept, returned-Kept,
}

abbrev candidate : ℕ → DialCandidate
candidate n = record { address = record { addr = v4 n; port = 25565 } }

abbrev one : DialCandidate
one = candidate 1

abbrev two : DialCandidate
two = candidate 2

abbrev three : DialCandidate
three = candidate 3

abbrev candidates : List DialCandidate
candidates = one ∷ two ∷ three ∷ []

-- The first two dials succeed before the caller looks at the channel.
both_sent : Reach {E = ℕ} candidates (record {
  workers = worker one finished ∷ worker two finished ∷ worker three waiting ∷ [];
  results = connected one ∷ connected two ∷ [];
  caller = collecting 3 [];
  cancelled = false;
})
both_sent =
    let s0 = start in
    let s1 =
      later s0 (works (worker one dialing ∷ []) (worker three waiting ∷ []) refl timer_fires) in
    let s2 =
      later s1 (works [] (worker two dialing ∷ worker three waiting ∷ []) refl dial_succeeds) in
    let s3 =
      later s2 (works (worker one dialed ∷ []) (worker three waiting ∷ []) refl dial_succeeds) in
    let s4 =
      later s3 (works [] (worker two dialed ∷ worker three waiting ∷ []) refl (passes refl)) in
    let s5 =
      later s4 (works (worker one sending ∷ []) (worker three waiting ∷ []) refl (passes refl)) in
    let s6 = later s5 (works [] (worker two sending ∷ worker three waiting ∷ []) refl sends) in
    later s6 (works (worker one finished ∷ []) (worker three waiting ∷ []) refl sends)

abbrev left : System ℕ
left = record {
  workers = worker one finished ∷ worker two finished ∷ worker three waiting ∷ [];
  results = connected two ∷ [];
  caller = returned one;
  cancelled = true;
}

left_behind : Reach candidates left
left_behind = later both_sent (receives_connection refl refl)

abbrev at_end : System ℕ
at_end = record {
  workers = worker one finished ∷ worker two finished ∷ worker three finished ∷ [];
  results = connected two ∷ failed three 7 ∷ [];
  caller = returned one;
  cancelled = true;
}

to_end : Later left at_end
to_end =
    then now (works (worker one finished ∷ worker two finished ∷ []) [] refl (stops_waiting 7 refl))

dial-Answers_example : Answers {E = ℕ} (λ c. c.address.port ≡ 25565) candidates left left.caller
dial-Answers_example =
    dial-Answers (λ c. c.address.port ≡ 25565) candidates left (refl, (refl, (refl, tt)))
      left_behind

steps-le_example : steps left_behind ≤ 17
steps-le_example = steps-le candidates left_behind

began : Reach {E = ℕ} candidates (started candidates)
began = start

collecting-Moves_example : Moves (started {E = ℕ} candidates)
collecting-Moves_example = collecting-Moves 7 began refl

returned-Kept_example : Kept one left.results at_end
returned-Kept_example = returned-Kept one refl to_end

all_connects : DialsTo {E = ℕ} candidates (connected_to one)
all_connects = some_connects left_behind refl

dial_candidates-Tells_example :
    Tells {E = ℕ} (λ c. c.address.port ≡ 25565) candidates (connected_to one)
dial_candidates-Tells_example =
    dial_candidates-Tells (λ c. c.address.port ≡ 25565) candidates (connected_to one)
      (refl, (refl, (refl, tt))) all_connects
