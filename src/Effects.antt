-- ===== src/Effects.antt =====
-- cmd/release-integration/main.go, internal/stagingserver/server.go: an action with its result, what
-- it opened, started and closed on the way, and what it added to a list of things to close later.
pub mod Balanced
pub mod Success
use minecraft_ping.Base.{
  ℕ, ◌+◌, ◌≡◌, refl, Bool, true, false, List, [], ◌∷◌, ◌++◌, map, Bytes, Option, none, some, ◌==◌,
  if◌then◌else◌, Result, ok, err,
}
use minecraft_ping.Base.Int.{ℤ}

-- What is opened, started or created. `container_removal` is a removal that is owed: it is opened
-- where it is put on the list of cleanups, before there is a container, and closed where it is
-- carried out.
pub data Resource : Type 0 where
  temp_dir zip_reader archive_root archive_file gzip_stream target_root source_file target_file :
      Resource
  server container_removal java_relay bedrock_relay upstream : Resource
  connection listener4 listener6 packet_listener4 packet_listener6 : Resource

abbrev pub number : Resource → ℕ
number temp_dir = 0
number zip_reader = 1
number archive_root = 2
number archive_file = 3
number gzip_stream = 4
number target_root = 5
number source_file = 6
number target_file = 7
number server = 8
number container_removal = 9
number java_relay = 10
number bedrock_relay = 11
number upstream = 12
number listener4 = 13
number listener6 = 14
number packet_listener4 = 15
number packet_listener6 = 16
number connection = 17

pub data Event : Type 0 where
  opened closed : Resource → Event
  ran : List Bytes → Event
  waited : Bytes → Bytes → ℤ → Event
  served : Bytes → Bytes → Event

pub record Act (F A : Type 0) : Type 0 where
  pub result : Result F A
  pub events : List Event
  pub registered : List Resource

-- The list from its end.
abbrev pub backward : List Resource → List Resource
backward [] = []
backward (r ∷ rs) = backward rs ++ (r ∷ [])

module _ {F : Type 0} where
  abbrev pub done : {A : Type 0} → Result F A → Act F A
  done r = record { result = r; events = []; registered = [] }

  abbrev pub behind : {B : Type 0} → List Event → List Resource → Act F B → Act F B
  behind events registered m = record {
    result = m.result;
    events = events ++ m.events;
    registered = registered ++ m.registered;
  }

  abbrev pub go_on :
      {A B : Type 0} → Result F A → List Event → List Resource → (A → Act F B) → Act F B
  go_on (ok a) events registered next = behind events registered (next a)
  go_on (err e) events registered next = record {
    result = err e;
    events = events;
    registered = registered;
  }

  infixl 5 ◌>>=◌ ◌>>◌
  abbrev pub ◌>>=◌ : {A B : Type 0} → Act F A → (A → Act F B) → Act F B
  m >>= next = go_on m.result m.events m.registered next

  abbrev pub ◌>>◌ : {B : Type 0} → Act F (Unit {0}) → Act F B → Act F B
  m >> next = m >>= λ _. next

  abbrev pub logged : Event → Act F (Unit {0})
  logged event = record { result = ok tt; events = event ∷ []; registered = [] }

  -- An open that fails opens nothing.
  abbrev pub opening : {A : Type 0} → Resource → Result F A → Act F A
  opening r (ok a) = record { result = ok a; events = opened r ∷ []; registered = [] }
  opening r (err e) = done (err e)

  -- `*cleanup = append(*cleanup, …)`, behind what it will undo.
  abbrev pub registering : Resource → Act F (Unit {0})
  registering r = record { result = ok tt; events = opened r ∷ []; registered = r ∷ [] }

  -- `defer …Close()`
  abbrev pub deferring : {A : Type 0} → Resource → Act F A → Act F A
  deferring r m = record {
    result = m.result;
    events = m.events ++ (closed r ∷ []);
    registered = m.registered;
  }

  -- `defer func() { runCleanup(cleanup) }()`, with what was registered before it.
  abbrev pub cleaning : {A : Type 0} → Act F A → Act F A
  cleaning m = record {
    result = m.result;
    events = m.events ++ map closed (backward m.registered);
    registered = [];
  }

  -- `closeAll`, of the listeners that are open, from the first on.
  abbrev pub closing_all : {A : Type 0} → List Resource → Act F A → Act F A
  closing_all held m = record {
    result = m.result;
    events = map closed held ++ m.events;
    registered = m.registered;
  }

  -- A function that opens something, hands it on, and closes it when it ends.
  abbrev pub over : {C A : Type 0} → Resource → Result F C → (C → Act F A) → Act F A
  over r (ok c) m = behind (opened r ∷ []) [] (deferring r (m c))
  over r (err e) m = done (err e)
