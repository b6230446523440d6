-- ===== src/Pm/Run.antt =====
-- Runs of instructions on persistent memory, and the states in which a crash may interrupt them.
use libcrpm.Base.{List, [], ◌∷◌, ◌++◌, ◌≡◌, refl, All, ◌⊎◌}

module _ {ℓ} {S : Type ℓ} where
  abbrev pub run : List (S → S) → S → S
  run [] s = s
  run (i ∷ is) s = run is (i s)

  -- Before the first instruction, between two, and after the last.
  abbrev pub AtEachPoint : (S → Type ℓ) → List (S → S) → S → Type ℓ
  AtEachPoint P [] s = P s
  AtEachPoint P (i ∷ is) s = P s × AtEachPoint P is (i s)

  -- Before the first instruction, between two, or after the last.
  abbrev pub AtSomePoint : (S → Type ℓ) → List (S → S) → S → Type ℓ
  AtSomePoint P [] s = P s
  AtSomePoint P (i ∷ is) s = P s ⊎ AtSomePoint P is (i s)

  -- What each instruction preserves holds between the start and each point, and at the end.
  pub AtEachPoint-rel :
      (R : S → S → Type ℓ) (trans : (s t u : S) → R s t → R t u → R s u) (is : List (S → S))
      → All (λ i. (s : S) → R s (i s)) is
      → (s t : S) → R s t
      → AtEachPoint (R s) is t
  AtEachPoint-rel R trans [] a s t r = r
  AtEachPoint-rel R trans (i ∷ is) a s t r =
      (r, AtEachPoint-rel R trans is a.1 s (i t) (trans s t (i t) r (a.0 t)))

  pub AtEachPoint-map :
      {P Q : S → Type ℓ} (f : (s : S) → P s → Q s) (is : List (S → S)) (s : S)
      → AtEachPoint P is s
      → AtEachPoint Q is s
  AtEachPoint-map f [] s h = f s h
  AtEachPoint-map f (i ∷ is) s h = (f s h.0, AtEachPoint-map f is (i s) h.1)

  pub AtEachPoint-run :
      (P : S → Type ℓ) (is : List (S → S)) (s : S) → AtEachPoint P is s → P (run is s)
  AtEachPoint-run P [] s h = h
  AtEachPoint-run P (i ∷ is) s h = AtEachPoint-run P is (i s) h.1

  -- What each instruction keeps holds at each point.
  pub AtEachPoint-keep :
      (P : S → Type ℓ) (is : List (S → S)) (s : S)
      → All (λ i. (t : S) → P t → P (i t)) is
      → P s
      → AtEachPoint P is s
  AtEachPoint-keep P [] s a h = h
  AtEachPoint-keep P (i ∷ is) s a h = (h, AtEachPoint-keep P is (i s) a.1 (a.0 s h))

  pub AtEachPoint-both :
      (P Q : S → Type ℓ) (is : List (S → S)) (s : S)
      → AtEachPoint P is s
      → AtEachPoint Q is s
      → AtEachPoint (λ t. P t × Q t) is s
  AtEachPoint-both P Q [] s p q = (p, q)
  AtEachPoint-both P Q (i ∷ is) s p q = ((p.0, q.0), AtEachPoint-both P Q is (i s) p.1 q.1)

  pub run-append : (is js : List (S → S)) (s : S) → run (is ++ js) s ≡ run js (run is s)
  run-append [] js s = refl
  run-append (i ∷ is) js s = run-append is js (i s)

  pub AtEachPoint-append :
      (P : S → Type ℓ) (is js : List (S → S)) (s : S)
      → AtEachPoint P is s
      → AtEachPoint P js (run is s)
      → AtEachPoint P (is ++ js) s
  AtEachPoint-append P [] js s h k = k
  AtEachPoint-append P (i ∷ is) js s h k = (h.0, AtEachPoint-append P is js (i s) h.1 k)
