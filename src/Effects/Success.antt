-- ===== src/Effects/Success.antt =====
-- cmd/release-integration/main.go: when the steps of an action all succeed.
use minecraft_ping.Base.{◌≡◌, refl, sym, List, Result, ok, err, arith}
use mathlib.Core.Path.{subst}
use minecraft_ping.Effects.{Event, Act, go_on, ◌>>=◌}

go_on-ok :
    {F A B : Type 0} (r : Result F A) (events : List Event) (registered : _) (next : A → Act F B)
    {b : B}
    → (go_on r events registered next).result ≡ ok b
    → (a : A) × (r ≡ ok a) × ((next a).result ≡ ok b)
go_on-ok (ok a) events registered next h = (a, refl, h)
go_on-ok (err e) events registered next h = absurd cc

pub bind-ok :
    {F A B : Type 0} (m : Act F A) (next : A → Act F B) {b : B}
    → (m >>= next).result ≡ ok b
    → (a : A) × (m.result ≡ ok a) × ((next a).result ≡ ok b)
bind-ok m next h = go_on-ok m.result m.events m.registered next h

ok-go_on :
    {F A B : Type 0} (r : Result F A) (events : List Event) (registered : _) (next : A → Act F B)
    {a : A} {b : B}
    → r ≡ ok a
    → (next a).result ≡ ok b
    → (go_on r events registered next).result ≡ ok b
ok-go_on (ok x) events registered next {a} {b} h k =
    let same : x ≡ a = ground arith in subst (λ y. (next y).result ≡ ok b) (sym same) k
ok-go_on (err e) events registered next h k = absurd cc

pub ok-bind :
    {F A B : Type 0} (m : Act F A) (next : A → Act F B) {a : A} {b : B}
    → m.result ≡ ok a
    → (next a).result ≡ ok b
    → (m >>= next).result ≡ ok b
ok-bind m next h k = ok-go_on m.result m.events m.registered next h k
