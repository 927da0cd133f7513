-- ===== src/State/Monad.antt =====
-- The monad of the handlers: the whole state in, a result and the new state out.
use netd_moduos.Common.{ℕ, suc, ◌≡◌, refl, Bool, List, ◌∷◌, Option, none, some, take}
use netd_moduos.State.Globals.{Net}
use netd_moduos.State.Kernel.{Os, Reading, failed, got}

-- The globals: `g_net` of driver.c and `g_ip_id` of ip.c, beside the kernel.
pub record Sys : Type 0 where
  pub net : Net
  pub ip_id : ℕ
  pub os : Os

-- `fault` is a read or a write outside a buffer, or a read of bytes of a buffer that nothing was
-- stored into. `spin` is a loop that is still waiting when the fuel is used up.
pub data Outcome (A : Type 0) : Type 0 where
  done : A → Sys → Outcome A
  fault : Outcome A
  spin : Outcome A

abbrev pub M : Type 0 → Type 0
M A = Sys → Outcome A

abbrev pub pure : {A : Type 0} → A → M A
pure a s = done a s

abbrev pub and_then : {A B : Type 0} → Outcome A → (A → M B) → Outcome B
and_then (done a s) k = k a s
and_then fault k = fault
and_then spin k = spin

infixl 5 ◌>>=◌ ◌>>◌
abbrev pub ◌>>=◌ : {A B : Type 0} → M A → (A → M B) → M B
◌>>=◌ m k s = and_then (m s) k

abbrev pub ◌>>◌ : {B : Type 0} → M (Unit {0}) → M B → M B
m >> k = m >>= λ _. k

abbrev pub ignore : {A : Type 0} → M A → M (Unit {0})
ignore m = m >>= λ _. pure tt

abbrev pub skip : M (Unit {0})
skip = pure tt

abbrev pub crash : {A : Type 0} → M A
crash s = fault

-- A load: `none` is a read out of bounds.
abbrev pub need : {A : Type 0} → Option A → M A
need none = crash
need (some a) = pure a

abbrev pub gets : {A : Type 0} → (Net → A) → M A
gets f s = done (f s.net) s

abbrev pub modify : (Net → Net) → M (Unit {0})
modify f s = done tt (record s { net = f s.net })

-- `time_ms()`.
abbrev pub time_ms : M ℕ
time_ms s =
    done (s.os.clock s.os.clock_calls)
      (record s { os = record (s.os) { clock_calls = suc (s.os.clock_calls) } })

-- `write(g_net.fd, bytes, ..) >= 0`.
abbrev pub write : List ℕ → M Bool
write bytes s = done (s.os.writes s.os.write_calls) (record s {
  os = record (s.os) { write_calls = suc (s.os.write_calls); written = bytes ∷ s.os.written };
})

abbrev pub at_most : ℕ → Reading → Reading
at_most size failed = failed
at_most size (got bytes) = got (take size bytes)

-- `read(g_net.fd, .., size)`.
abbrev pub read : ℕ → M Reading
read size s =
    done (at_most size (s.os.reads s.os.read_calls size))
      (record s { os = record (s.os) { read_calls = suc (s.os.read_calls) } })

pub and_then_assoc :
    {A B C : Type 0} (o : Outcome A) (k : A → M B) (l : B → M C)
    → and_then (and_then o k) l ≡ and_then o (λ a. k a >>= l)
and_then_assoc (done a s) k l = refl
and_then_assoc fault k l = refl
and_then_assoc spin k l = refl
