-- ===== src/Effects/Balanced.antt =====
-- cmd/release-integration/main.go, internal/stagingserver/server.go: every resource that an action
-- opens is closed once, or is on its list of things to close.
use minecraft_ping.Base.{
  ◌≡◌, refl, ap, ◌∙◌, sym, List, [], ◌∷◌, ◌++◌, map, append_assoc, append-nil, Option, none, some,
  ◌==◌, if◌then◌else◌, Option-cases, inl, inr, arith, Result, ok, err,
}
use minecraft_ping.Effects.{
  Resource, number, Event, opened, closed, ran, waited, served, Act, done, go_on, ◌>>=◌, ◌>>◌, over,
  deferring, backward, cleaning,
}

-- What is open without one resource; `none` where it is not open.
abbrev pub closing : Resource → List Resource → Option (List Resource)
closing r [] = none
closing r (x ∷ xs) =
    if number r == number x
    then some xs
    else elim (closing r xs) [ none ↦ none | some rest ↦ some (x ∷ rest) ]

-- What is open behind some events, from what is open before them; `none` where one of them closes
-- what is not open.
abbrev pub still_open : List Resource → List Event → Option (List Resource)
still_open held [] = some held
still_open held (opened r ∷ events) = still_open (r ∷ held) events
still_open held (closed r ∷ events) = elim (closing r held) [
  | none ↦ none
  | some rest ↦ still_open rest events
]
still_open held (ran args ∷ events) = still_open held events
still_open held (waited network host port ∷ events) = still_open held events
still_open held (served java bedrock ∷ events) = still_open held events

closed_step :
    (r : Resource) (held rest : List Resource) (events : List Event)
    → closing r held ≡ some rest
    → still_open held (closed r ∷ events) ≡ still_open rest events
closed_step r held rest events e =
    ap (λ o. elim o [ none ↦ none | some left ↦ still_open left events ]) e

closed_fails :
    (r : Resource) (held : List Resource) (events : List Event)
    → closing r held ≡ none
    → still_open held (closed r ∷ events) ≡ none
closed_fails r held events e =
    ap (λ o. elim o [ none ↦ none | some left ↦ still_open left events ]) e

pub still_open-append :
    (held middle : List Resource) (xs ys : List Event)
    → still_open held xs ≡ some middle
    → still_open held (xs ++ ys) ≡ still_open middle ys
still_open-append held middle [] ys h = ground arith
still_open-append held middle (opened r ∷ xs) ys h = still_open-append (r ∷ held) middle xs ys h
still_open-append held middle (closed r ∷ xs) ys h = elim (Option-cases (closing r held)) [
  | inl e ↦ let failed = closed_fails r held xs e in absurd cc
  | inr (rest, e) ↦
      closed_step r held rest (xs ++ ys) e
      ∙ still_open-append rest middle xs ys (sym (closed_step r held rest xs e) ∙ h)
]
still_open-append held middle (ran args ∷ xs) ys h = still_open-append held middle xs ys h
still_open-append held middle (served java bedrock ∷ xs) ys h =
    still_open-append held middle xs ys h
still_open-append held middle (waited network host port ∷ xs) ys h =
    still_open-append held middle xs ys h

closing-first : (r : Resource) (held : List Resource) → closing r (r ∷ held) ≡ some held
closing-first r held = ground arith

backward-append : (xs ys : List Resource) → backward (xs ++ ys) ≡ backward ys ++ backward xs
backward-append [] ys = sym (append-nil (backward ys))
backward-append (x ∷ xs) ys =
    ap (λ l. l ++ (x ∷ [])) (backward-append xs ys)
    ∙ append_assoc (backward ys) (backward xs) (x ∷ [])

closes_registered : (rs held : List Resource) → still_open (rs ++ held) (map closed rs) ≡ some held
closes_registered [] held = refl
closes_registered (r ∷ rs) held =
    closed_step r (r ∷ (rs ++ held)) (rs ++ held) (map closed rs) (closing-first r (rs ++ held))
    ∙ closes_registered rs held

module _ {F A : Type 0} where
  -- Whatever was open before an action, behind it that and what it registered are open.
  abbrev pub IsTracked : Act F A → Type 0
  IsTracked m =
      (held : List Resource) → still_open held m.events ≡ some (backward m.registered ++ held)

  -- Nothing more is open behind an action than before it.
  abbrev pub IsBalanced : Act F A → Type 0
  IsBalanced m = (m.registered ≡ []) × IsTracked m

  pub done-IsBalanced : (r : Result F A) → IsBalanced (done r)
  done-IsBalanced r = (refl, λ held. refl)

  pub balanced-closes : (m : Act F A) → IsBalanced m → still_open [] m.events ≡ some []
  balanced-closes m h = h.1 [] ∙ ap (λ l. some (backward l ++ [])) h.0

  pub balanced-IsTracked : (m : Act F A) → IsBalanced m → IsTracked m
  balanced-IsTracked m h = h.1

  -- The events of a deferred close, behind an open.
  pub deferring-IsBalanced :
      (r : Resource) (m : Act F A) (held : List Resource)
      → IsBalanced m
      → still_open (r ∷ held) (deferring r m).events ≡ some held
  deferring-IsBalanced r m held h =
      still_open-append (r ∷ held) (r ∷ held) m.events (closed r ∷ [])
        (h.1 (r ∷ held) ∙ ap (λ l. some (backward l ++ (r ∷ held))) h.0)
      ∙ closed_step r (r ∷ held) held [] (closing-first r held)

  pub cleaning-IsBalanced : (m : Act F A) → IsTracked m → IsBalanced (cleaning m)
  cleaning-IsBalanced m h = (
    refl,
    λ held.
        still_open-append held (backward m.registered ++ held) m.events
          (map closed (backward m.registered)) (h held)
        ∙ closes_registered (backward m.registered) held,
  )

module _ {F A B : Type 0} where
  go_on-IsTracked :
      (r : Result F A) (events : List Event) (registered : List Resource) (next : A → Act F B)
      → ((held : List Resource) → still_open held events ≡ some (backward registered ++ held))
      → ((a : A) → IsTracked (next a))
      → IsTracked (go_on r events registered next)
  go_on-IsTracked (err e) events registered next h k = h
  go_on-IsTracked (ok a) events registered next h k = λ held.
      still_open-append held (backward registered ++ held) events (next a).events (h held)
      ∙ k a (backward registered ++ held)
      ∙ ap some (sym (append_assoc (backward (next a).registered) (backward registered) held))
      ∙ ap (λ l. some (l ++ held)) (sym (backward-append registered (next a).registered))

  pub bind-IsTracked :
      (m : Act F A) (next : A → Act F B)
      → IsTracked m
      → ((a : A) → IsTracked (next a))
      → IsTracked (m >>= next)
  bind-IsTracked m next h k = go_on-IsTracked m.result m.events m.registered next h k

  go_on-registered :
      (r : Result F A) (events : List Event) (registered : List Resource) (next : A → Act F B)
      → registered ≡ []
      → ((a : A) → (next a).registered ≡ [])
      → (go_on r events registered next).registered ≡ []
  go_on-registered (err e) events registered next h k = h
  go_on-registered (ok a) events registered next h k = ap (λ l. l ++ (next a).registered) h ∙ k a

  pub bind-IsBalanced :
      (m : Act F A) (next : A → Act F B)
      → IsBalanced m
      → ((a : A) → IsBalanced (next a))
      → IsBalanced (m >>= next)
  bind-IsBalanced m next h k = (
    go_on-registered m.result m.events m.registered next h.0 (λ a. (k a).0),
    bind-IsTracked m next h.1 (λ a. (k a).1),
  )

pub then-IsTracked :
    {F B : Type 0} (m : Act F (Unit {0})) (k : Act F B)
    → IsTracked m
    → IsTracked k
    → IsTracked (m >> k)
then-IsTracked m k hm hk = bind-IsTracked m (λ _. k) hm (λ _. hk)

pub over-IsBalanced :
    {F C A : Type 0} (r : Resource) (o : Result F C) (m : C → Act F A)
    → ((c : C) → IsBalanced (m c))
    → IsBalanced (over r o m)
over-IsBalanced r (err e) m h = (refl, λ held. refl)
over-IsBalanced r (ok c) m h = (
  (h c).0,
  λ held.
      deferring-IsBalanced r (m c) held (h c) ∙ ap (λ l. some (backward l ++ held)) (sym (h c).0),
)
