-- ===== src/Cmd/Process.antt =====
-- How a process goes on or ends: `os.Exit` ends it where it stands, a panic or a return only after
-- the deferred calls.
use kubernetes_operators.Common.{ℕ}
use kubernetes_operators.Cluster.Exec.{World, Outcome, ok, err, panic, Exec}

pub data Ending (A : Type 0) : Type 0 where
  running : A → Ending A
  exited : (code : ℕ) → Ending A
  crashed : Ending A

abbrev pub Proc : Type 0 → Type 0 → Type 0
Proc S A = World S → Ending A × World S

abbrev pub exit_on_error : {F A : Type 0} → Outcome F A → Ending A
exit_on_error (ok a) = running a
exit_on_error (err e) = exited 1
exit_on_error panic = crashed

module _ {F S A : Type 0} where
  -- `if err != nil { …; os.Exit(1) }`
  unfoldable pub or_exit : Exec F S A → Proc S A
  or_exit m w = (exit_on_error (m w).0, (m w).1)

  -- An action whose error is only logged.
  unfoldable pub ignoring : Exec F S A → World S → World S
  ignoring m w = (m w).1

module _ {S A B : Type 0} where
  abbrev pub then_run : Ending A → (A → Proc S B) → Proc S B
  then_run (running a) f w = f a w
  then_run (exited code) f w = (exited code, w)
  then_run crashed f w = (crashed, w)

  infixl 10 ◌>>=◌ ◌>>◌
  unfoldable pub ◌>>=◌ : Proc S A → (A → Proc S B) → Proc S B
  ◌>>=◌ m f w = then_run (m w).0 f (m w).1

  abbrev pub ◌>>◌ : Proc S A → Proc S B → Proc S B
  m >> n = m >>= λ _. n

module _ {S A : Type 0} where
  abbrev pub after_deferred : (World S → World S) → Ending A × World S → Ending A × World S
  after_deferred d (running a, w) = (running a, d w)
  after_deferred d (exited code, w) = (exited code, w)
  after_deferred d (crashed, w) = (crashed, d w)

  -- `defer d`
  unfoldable pub finally : (World S → World S) → Proc S A → Proc S A
  finally d m w = after_deferred d (m w)
