-- ===== src/Prelude/Action.antt =====
-- An asynchronous method as an action: it reads and writes a world, and returns or throws. What it
-- wrote before a throw stays written, so the world comes back beside the error too.
use mathlib.Core.Bool.{Bool, true, false}
use px.Prelude.Tests.{if◌then◌else◌}

pub data Result (E A : Type 0) : Type 0 where
  ok : A → Result E A
  err : E → Result E A

-- What the write of a file comes to: one that fails may have renamed the new file into place before,
-- since the directory is opened and synced last.
pub data Write : Type 0 where
  write_done : Write
  write_failed : Bool → Write

-- What a failed write leaves on disk.
abbrev pub on_disk : {A : Type 0} → Bool → A → A → A
on_disk replaced next old = if replaced then next else old

abbrev pub Action : Type 0 → Type 0 → Type 0 → Type 0
Action W E A = W → Result E A × W

module _ {W E : Type 0} where
  abbrev pub pure : {A : Type 0} → A → Action W E A
  pure a w = (ok a, w)

  abbrev pub throw : {A : Type 0} → E → Action W E A
  throw e w = (err e, w)

  abbrev pub gets : {A : Type 0} → (W → A) → Action W E A
  gets f w = (ok (f w), w)

  abbrev pub modify : (W → W) → Action W E (Unit {0})
  modify f w = (ok tt, f w)

  -- `if (b) throw e;`
  abbrev pub throw_if : Bool → E → Action W E (Unit {0})
  throw_if true e w = (err e, w)
  throw_if false e w = (ok tt, w)

  -- The rest of a block, on what the first part returned.
  abbrev pub continue : {A B : Type 0} → Result E A → (A → Action W E B) → Action W E B
  continue (ok a) f w = f a w
  continue (err e) f w = (err e, w)

infixl 5 ◌>>=◌ ◌>>◌
abbrev pub ◌>>=◌ : {W E A B : Type 0} → Action W E A → (A → Action W E B) → Action W E B
◌>>=◌ m f w = let (r, w') = m w in continue r f w'

abbrev pub ◌>>◌ : {W E A B : Type 0} → Action W E A → Action W E B → Action W E B
m >> k = m >>= λ _. k
