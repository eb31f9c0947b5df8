-- ===== src/Staging/Serve/Closed.antt =====
-- internal/stagingserver/server.go: what `Serve` leaves open.
use minecraft_ping.Base.{
  ℕ, ◌≡◌, refl, Bool, true, false, ◌||◌, List, [], ◌∷◌, ◌++◌, map, Bytes, ◌==◌, if◌then◌else◌,
  Result, ok, err, bytes_eq, All, arith, append-nil, ap, ◌∙◌, Bool-cases, inl, inr,
}
use minecraft_ping.Effects.{
  Resource, number, Event, opened, closed, ran, waited, served, Act, done, ◌>>◌, closing_all,
}
use minecraft_ping.Staging.Serve.{
  ServerConfig, ServeError, listen_failed, ServeWorld, listened, listen_at, listen_loop, blocks,
  bedrock_status_of, closed_early, serving, status_checked, listening, checked_json,
  checked_addresses, serve, with_defaults,
}

-- A close of what is not open does nothing.
abbrev pub without : Resource → List Resource → List Resource
without r [] = []
without r (x ∷ xs) = if number r == number x then without r xs else x ∷ without r xs

-- What is open behind some events, from what is open before them.
abbrev pub left_open : List Resource → List Event → List Resource
left_open held [] = held
left_open held (opened r ∷ events) = left_open (held ++ (r ∷ [])) events
left_open held (closed r ∷ events) = left_open (without r held) events
left_open held (ran args ∷ events) = left_open held events
left_open held (waited network host port ∷ events) = left_open held events
left_open held (served java bedrock ∷ events) = left_open held events

left_open-append :
    (held : List Resource) (xs ys : List Event)
    → left_open held (xs ++ ys) ≡ left_open (left_open held xs) ys
left_open-append held [] ys = refl
left_open-append held (opened r ∷ xs) ys = left_open-append (held ++ (r ∷ [])) xs ys
left_open-append held (closed r ∷ xs) ys = left_open-append (without r held) xs ys
left_open-append held (ran args ∷ xs) ys = left_open-append held xs ys
left_open-append held (waited network host port ∷ xs) ys = left_open-append held xs ys
left_open-append held (served java bedrock ∷ xs) ys = left_open-append held xs ys

abbrev is_in : ℕ → List Resource → Bool
is_in n [] = false
is_in n (r ∷ rs) = number r == n || is_in n rs

-- All that is open is on a list.
abbrev Within : List Resource → List Resource → Type 0
Within held rs = All (λ h. is_in (number h) rs ≡ true) held

Within-cons : (x : Resource) (held rs : List Resource) → Within held rs → Within held (x ∷ rs)
Within-cons x [] rs h = tt
Within-cons x (y ∷ held) rs h = (ground (arith, h.0), Within-cons x held rs h.1)

Within-self : (held : List Resource) → Within held held
Within-self [] = tt
Within-self (x ∷ held) = (ground arith, Within-cons x held held (Within-self held))

without-Within :
    (r : Resource) (held rs : List Resource) → Within held (r ∷ rs) → Within (without r held) rs
without-Within r [] rs h = tt
without-Within r (x ∷ held) rs h = elim (Bool-cases (number r == number x)) [
  | inl same ↦ rw same (without-Within r held rs h.1)
  | inr other ↦ rw other ((rw other at h.0), without-Within r held rs h.1)
]

without-keeps :
    (r : Resource) (held rs : List Resource) → Within held rs → Within (without r held) rs
without-keeps r [] rs h = tt
without-keeps r (x ∷ held) rs h = elim (Bool-cases (number r == number x)) [
  | inl same ↦ rw same (without-keeps r held rs h.1)
  | inr other ↦ rw other (h.0, without-keeps r held rs h.1)
]

early-keeps :
    (early held rs : List Resource) → Within held rs → Within (left_open held (map closed early)) rs
early-keeps [] held rs h = h
early-keeps (r ∷ early) held rs h =
    early-keeps early (without r held) rs (without-keeps r held rs h)

closes-all : (rs held : List Resource) → Within held rs → left_open held (map closed rs) ≡ []
closes-all [] [] h = refl
closes-all [] (x ∷ held) h = absurd cc
closes-all (r ∷ rs) held h = closes-all rs (without r held) (without-Within r held rs h)

-- An action that leaves nothing open of what was open before it.
abbrev LeavesNothing : {F A : Type 0} → List Resource → Act F A → Type 0
LeavesNothing held m = left_open held m.events ≡ []

closing_all-LeavesNothing :
    {F A : Type 0} (rs held : List Resource) (r : Result F A)
    → Within held rs
    → LeavesNothing held (closing_all rs (done r))
closing_all-LeavesNothing rs held r h =
    ap (left_open held) (append-nil (map closed rs)) ∙ closes-all rs held h

module _ {E : Type 0} (w : ServeWorld E) where
  serving-LeavesNothing :
      (cfg : ServerConfig) (held : List Resource) (status : Bytes)
      → LeavesNothing held (serving w cfg held status)
  serving-LeavesNothing cfg held status =
      let early = closed_early w w.serving_end in
      left_open-append held (map closed early) (map closed held ++ [])
      ∙ closing_all-LeavesNothing {F = ServeError E} {A = Unit {0}} held
          (left_open held (map closed early)) (ok tt)
          (early-keeps early held held (Within-self held))

  status_checked-LeavesNothing :
      (cfg : ServerConfig) (held : List Resource) (o : Result (ServeError E) Bytes)
      → LeavesNothing held (status_checked w cfg held o)
  status_checked-LeavesNothing cfg held (ok status) = serving-LeavesNothing cfg held status
  status_checked-LeavesNothing cfg held (err e) =
      closing_all-LeavesNothing {F = ServeError E} {A = Unit {0}} held held (err e)
        (Within-self held)

  module _ (next : List Resource → Act (ServeError E) (Unit {0}))
      (goes_on : (held : List Resource) → LeavesNothing held (next held)) where
    listened-LeavesNothing :
        (held : List Resource) (r : Resource) (address : Bytes) (o : Result E (Unit {0}))
        → LeavesNothing held (listened w held r address o next)
    listened-LeavesNothing held r address (ok u) = goes_on (held ++ (r ∷ []))
    listened-LeavesNothing held r address (err e) =
        closing_all-LeavesNothing {F = ServeError E} {A = Unit {0}} held held
          (err (listen_failed address e)) (Within-self held)

    if-LeavesNothing :
        (b : Bool) (held : List Resource) (m n : Act (ServeError E) (Unit {0}))
        → LeavesNothing held m
        → LeavesNothing held n
        → LeavesNothing held (if b then m else n)
    if-LeavesNothing true held m n h k = h
    if-LeavesNothing false held m n h k = k

    listen_at-LeavesNothing :
        (held : List Resource) (block : Resource × Bytes)
        → LeavesNothing held (listen_at w held block next)
    listen_at-LeavesNothing held (r, address) =
        if-LeavesNothing (bytes_eq address []) held _ _ (goes_on held)
          (listened-LeavesNothing held r address (w.listen r address))

  listen_loop-LeavesNothing :
      (next : List Resource → Act (ServeError E) (Unit {0})) (bs : List (Resource × Bytes))
      → ((held : List Resource) → LeavesNothing held (next held))
      → (held : List Resource) → LeavesNothing held (listen_loop w held bs next)
  unfolding listen_loop
  listen_loop-LeavesNothing next [] goes_on held = goes_on held
  listen_loop-LeavesNothing next (block ∷ bs) goes_on held =
      listen_at-LeavesNothing (λ held'. listen_loop w held' bs next)
        (listen_loop-LeavesNothing next bs goes_on) held block

  then-LeavesNothing :
      (r : Result (ServeError E) (Unit {0})) (m : Act (ServeError E) (Unit {0}))
      → LeavesNothing [] m
      → LeavesNothing [] (done r >> m)
  then-LeavesNothing (ok u) m h = h
  then-LeavesNothing (err e) m h = refl

  -- Whatever addresses are given, whichever of them cannot be listened on, whatever statuses are
  -- refused, however the service ends and whichever listeners their goroutines close before it does,
  -- `Serve` leaves no listener open that it has opened.
  pub serve-closes : (cfg : ServerConfig) → left_open [] (serve w cfg).events ≡ []
  unfolding serve
  serve-closes given =
      let cfg = with_defaults given in
      then-LeavesNothing (checked_json w cfg) _ (
        then-LeavesNothing (checked_addresses w cfg) (listening w cfg) (
          listen_loop-LeavesNothing (λ held. status_checked w cfg held (bedrock_status_of w cfg))
            (blocks w cfg) (λ held. status_checked-LeavesNothing cfg held (bedrock_status_of w cfg))
            []))
