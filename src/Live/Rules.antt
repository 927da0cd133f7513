-- ===== src/Live/Rules.antt =====
-- Handlers that come to an end, one rule for each way to build a handler.
use netd_moduos.Common.{
  ℕ, ◌≤◌, ◌≡◌, refl, sym, ◌∙◌, subst, Bool, true, false, List, Option, none, some, if◌then◌else◌,
  arith,
}
use netd_moduos.State.{
  Net, Sys, Oracle, Outcome, done, fault, spin, M, and_then, pure, crash, need, gets, modify,
  time_ms, write, read, ◌>>=◌,
}

-- Later in the same run: the kernel is the same, and its clock has not been set back.
pub record Later (s s' : Sys) : Type 0 where
  pub same_oracle : s'.os.oracle ≡ s.os.oracle
  pub clock_on : s.os.clock_calls ≤ s'.os.clock_calls

pub Later-refl : (s : Sys) → Later s s
Later-refl s = record { same_oracle = refl; clock_on = omega arith }

pub Later-trans : (s t u : Sys) → Later s t → Later t u → Later s u
Later-trans s t u p q = record {
  same_oracle = q.same_oracle ∙ p.same_oracle;
  clock_on = omega (arith, p.clock_on, q.clock_on);
}

-- What began in `s` came to an end: it faulted, or it returned later in the same run.
abbrev pub Finishes : {A : Type 0} → Sys → Outcome A → Type 0
Finishes s (done a s') = Later s s'
Finishes s fault = Unit {0}
Finishes s spin = ⊥

-- What ends from a later state ends.
pub Finishes-Later :
    {A : Type 0} (s t : Sys) (o : Outcome A) → Later s t → Finishes t o → Finishes s o
Finishes-Later s t spin later h = h
Finishes-Later s t fault later h = tt
Finishes-Later s t (done a u) later h = Later-trans s t u later h

-- A first part that ends, and then a second that ends in every state where the first can return.
pub Finishes-seq :
    {A B : Type 0} (s : Sys) (o : Outcome A) (k : A → M B)
    → Finishes s o
    → ((a : A) (t : Sys) → Later s t → Finishes t (k a t))
    → Finishes s (and_then o k)
Finishes-seq s spin k h next = h
Finishes-seq s fault k h next = tt
Finishes-seq s (done a t) k h next = Finishes-Later s t (k a t) h (next a t h)

pub Finishes-if :
    {A : Type 0} (b : Bool) (m n : M A) (s : Sys)
    → Finishes s (m s)
    → Finishes s (n s)
    → Finishes s ((if b then m else n) s)
Finishes-if true m n s hm hn = hm
Finishes-if false m n s hm hn = hn

module _ (P : Oracle → Type 0) where
  -- From every state with a kernel of which `P` holds, the handler comes to an end.
  pub record Ends {A : Type 0} (m : M A) : Type 0 where
    pub at : (s : Sys) → P s.os.oracle → Finishes s (m s)

  module _ {A : Type 0} where
    pub Ends-pure : (a : A) → Ends (pure a)
    Ends-pure a = record { at = λ s _. Later-refl s }

    pub Ends-need : (o : Option A) → Ends (need o)
    Ends-need none = record { at = λ s _. tt }
    Ends-need (some a) = Ends-pure a

    pub Ends-crash : Ends (crash {A = A})
    Ends-crash = record { at = λ s _. tt }

    pub Ends-gets : (f : Net → A) → Ends (gets f)
    Ends-gets f = record { at = λ s _. Later-refl s }

    pub Ends-if : (b : Bool) (m n : M A) → Ends m → Ends n → Ends (if b then m else n)
    Ends-if true m n em en = em
    Ends-if false m n em en = en

  pub Ends-modify : (f : Net → Net) → Ends (modify f)
  Ends-modify f = record { at = λ s _. record { same_oracle = refl; clock_on = omega arith } }

  pub Ends-time_ms : Ends time_ms
  Ends-time_ms = record { at = λ s _. record { same_oracle = refl; clock_on = omega arith } }

  pub Ends-write : (bytes : List ℕ) → Ends (write bytes)
  Ends-write bytes = record { at = λ s _. record { same_oracle = refl; clock_on = omega arith } }

  pub Ends-read : (size : ℕ) → Ends (read size)
  Ends-read size = record { at = λ s _. record { same_oracle = refl; clock_on = omega arith } }

  module _ {A B : Type 0} where
    -- The rest of a block, after a first part that came to an end.
    pub Finishes-then :
        (s : Sys) (o : Outcome A) (k : A → M B)
        → P s.os.oracle
        → Finishes s o
        → ((a : A) → Ends (k a))
        → Finishes s (and_then o k)
    Finishes-then s o k live h ek =
        Finishes-seq s o k h λ a t later. (ek a).at t (subst P (sym later.same_oracle) live)

    pub Ends-bind : (m : M A) (k : A → M B) → Ends m → ((a : A) → Ends (k a)) → Ends (m >>= k)
    Ends-bind m k em ek = record {
      at = λ s prompt. Finishes-then s (m s) k prompt (em.at s prompt) ek;
    }

  -- The rest of a block may use what was loaded.
  pub Ends-bind-need :
      {A B : Type 0} (o : Option A) (k : A → M B)
      → ((a : A) → o ≡ some a → Ends (k a))
      → Ends (need o >>= k)
  Ends-bind-need none k ek = record { at = λ s _. tt }
  Ends-bind-need (some a) k ek = record { at = (ek a refl).at }

-- For a block: `search ends_rules`.
pub ruleset ends_rules = (
  Ends-pure, Ends-need, Ends-crash, Ends-gets, Ends-if, Ends-modify, Ends-time_ms, Ends-write,
  Ends-read, Ends-bind,
)
