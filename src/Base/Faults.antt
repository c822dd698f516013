-- ===== src/Base/Faults.antt =====
-- Code that may fault: an uncaught exception, or behaviour that C++ leaves undefined.

use mathlib.Core.Option.{Option, none, some}

-- A fault is `none`.
infixl 5 ◌>>=◌
abbrev pub ◌>>=◌ : {A B : Type 0} → Option A → (A → Option B) → Option B
none >>= f = none
some a >>= f = f a
