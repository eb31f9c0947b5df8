-- ===== src/Java/Action.antt =====
-- Code that talks over a connection: it returns a result and the connection behind it. After an
-- error nothing reads from the connection again, so what a failed read had taken is not kept.
use minecraft_ping.Base.{ℕ, Bytes, Result, ok, err, map_err, ◌≡◌}
use minecraft_ping.Io.{IoError, Stream, Conn, conn_write, conn_set_deadline}
use minecraft_ping.Java.Errors.{Error, io}

abbrev pub Action : Type 0 → Type 0
Action A = Conn → Result Error A × Conn

abbrev pub continue_with :
    {A B : Type 0} → (A → Action B) → Result Error A × Conn → Result Error B × Conn
continue_with f (ok a, c) = f a c
continue_with f (err e, c) = (err e, c)

infixl 5 ◌>>=◌ ◌>>◌
-- Shut, so that a proof takes one step at a time (`then_ok`, `then_err`).
unfoldable pub ◌>>=◌ : {A B : Type 0} → Action A → (A → Action B) → Action B
◌>>=◌ m f c = continue_with f (m c)

abbrev pub ◌>>◌ : {B : Type 0} → Action (Unit {0}) → Action B → Action B
m >> k = m >>= λ _. k

abbrev pub return : {A : Type 0} → A → Action A
return a c = (ok a, c)

abbrev pub of_result : {A : Type 0} → Result Error A → Action A
of_result r c = (r, c)

abbrev pub received : {A : Type 0} → Conn → Result Error (A × Stream) → Result Error A × Conn
received c (ok (a, s)) = (ok a, record c { incoming = s })
received c (err e) = (err e, c)

abbrev pub receive : {A : Type 0} → (Stream → Result Error (A × Stream)) → Action A
receive read c = received c (read c.incoming)

abbrev pub io_result : {A : Type 0} → Result IoError A × Conn → Result Error A × Conn
io_result (r, c) = (map_err io r, c)

unfoldable pub write : Bytes → Action (Unit {0})
write bytes c = io_result (conn_write bytes c)

unfoldable pub set_deadline : ℕ → Action (Unit {0})
set_deadline at c = io_result (conn_set_deadline at c)

-- A step that succeeds hands its value and its connection on.
pub then_ok :
    {A B : Type 0} (m : Action A) (f : A → Action B) (c : Conn) {a : A} {c' : Conn}
    → m c ≡ (ok a, c')
    → (m >>= f) c ≡ f a c'
unfolding ◌>>=◌
then_ok m f c e i = continue_with f (e i)

-- A step that fails ends the whole.
pub then_err :
    {A B : Type 0} (m : Action A) (f : A → Action B) (c : Conn) {e : Error} {c' : Conn}
    → m c ≡ (err e, c')
    → (m >>= f) c ≡ (err e, c')
unfolding ◌>>=◌
then_err m f c h i = continue_with f (h i)
