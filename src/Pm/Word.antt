-- ===== src/Pm/Word.antt =====
-- Words of persistent memory, of 8 bytes at most, that a crash does not tear.
use libcrpm.Base.{ℕ, ◌≡◌, ◌⊎◌, inl, inr, subst, Bool, true, false, List, [], ◌∷◌, if◌then◌else◌}

abbrev pub Among : ℕ → List ℕ → Type 0
Among v [] = ⊥
Among v (w ∷ ws) = (v ≡ w) ⊎ Among v ws

-- A word that the hardware never tears: after a crash it holds what it held, or one of the values
-- that were stored since it was last known to be on the medium.
pub record Word : Type 0 where
  pub value : ℕ
  pub older : List ℕ
  pub in_flight : Bool

abbrev pub word_on_medium : ℕ → Word
word_on_medium v = record { value = v; older = []; in_flight = false }

unfoldable pub store : Word → ℕ → Word
store w v = record { value = v; older = w.value ∷ w.older; in_flight = false }

unfoldable pub flush : Word → Word
flush w = record w { in_flight = true }

unfoldable pub nt_store : Word → ℕ → Word
nt_store w v = record { value = v; older = w.value ∷ w.older; in_flight = true }

unfoldable pub fence : Word → Word
fence w = record w { older = if w.in_flight then [] else w.older; in_flight = false }

-- The values that the medium may hold for the word after a crash.
abbrev pub May : Word → ℕ → Type 0
May w v = (v ≡ w.value) ⊎ Among v w.older

-- A word that is surely on the medium is what a crash leaves.
pub May-sure : (w : Word) (v : ℕ) → w.older ≡ [] → May w v → v ≡ w.value
May-sure w v sure (inl here) = here
May-sure w v sure (inr there) = absurd (subst (λ vs. Among v vs) sure there)
