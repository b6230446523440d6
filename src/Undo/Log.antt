-- ===== src/Undo/Log.antt =====
-- What the log of an UndoLogEngine holds, in memory and on the medium, and what makes a head of the
-- log safe to recover from.
use libcrpm.Base.{
  ℕ, suc, ◌+◌, ◌*◌, ◌<◌, ◌≤◌, ◌≡◌, ◌∙◌, List, [], ◌∷◌, ◌++◌, false, length, contains, arith, subst,
}
use libcrpm.Pm.Region.{Region, clean, Survives}
use libcrpm.Undo.Defs.{UndoLogEngine, LogEntry, log_size}
use libcrpm.Undo.Hook.{entry_of}

module _ {B : Type 0} (snap : ℕ → B) where
  -- The log from the offset `off` on: for each block of the list its entry, with the content `snap`.
  abbrev pub Holds : (ℕ → LogEntry) → (ℕ → B) → ℕ → List ℕ → Type 0
  Holds es ps off [] = Unit
  Holds es ps off (b ∷ ids) =
      (es off ≡ entry_of b) × (ps off ≡ snap b) × Holds es ps (off + log_size) ids

  -- The same of two regions, with every cell surely on the medium.
  abbrev pub Logged : Region LogEntry → Region B → ℕ → List ℕ → Type 0
  Logged es ps off [] = Unit
  Logged es ps off (b ∷ ids) =
      (es.view off ≡ entry_of b)
      × (es.status off ≡ clean)
      × (ps.view off ≡ snap b)
      × (ps.status off ≡ clean)
      × Logged es ps (off + log_size) ids

  -- The blocks that the list leaves out are on the medium, with the content `snap`.
  abbrev pub Kept : Region B → List ℕ → Type 0
  Kept h ids = (b : ℕ) → contains ids b ≡ false → (h.view b ≡ snap b) × (h.status b ≡ clean)

  -- A medium whose log head is `head` can be recovered to `snap`.
  pub record SafeAt (e : UndoLogEngine B) (head : ℕ) : Type 0 where
    pub ids : List ℕ
    pub reaches : head ≡ log_size * length ids
    pub logged : Logged e.entries e.payloads 0 ids
    pub kept : Kept e.heap ids

  pub Logged-Survives :
      (ids : List ℕ) (off : ℕ) {es : Region LogEntry} {ps : Region B} {em : ℕ → LogEntry}
      {pm : ℕ → B}
      → Survives es em
      → Survives ps pm
      → Logged es ps off ids
      → Holds em pm off ids
  Logged-Survives [] off se sp h = tt
  Logged-Survives (b ∷ ids) off se sp h =
      (se off h.1 ∙ h.0, sp off h.3 ∙ h.2, Logged-Survives ids (off + log_size) se sp h.4)

  -- Regions that agree before `end` hold the same log before it.
  pub Logged-agree :
      (ids : List ℕ) (off end : ℕ) {es fs : Region LogEntry} {ps qs : Region B}
      → off + log_size * length ids ≤ end
      → ((o : ℕ)
          → o < end
          → (fs.view o ≡ es.view o)
            × (es.status o ≡ clean → fs.status o ≡ clean)
            × (qs.view o ≡ ps.view o)
            × (ps.status o ≡ clean → qs.status o ≡ clean))
      → Logged es ps off ids
      → Logged fs qs off ids
  Logged-agree [] off end fits same h = tt
  Logged-agree (b ∷ ids) off end fits same h =
      let at = same off (omega arith) in
      (
        at.0 ∙ h.0,
        at.1 h.1,
        at.2 ∙ h.2,
        at.3 h.3,
        Logged-agree ids (off + log_size) end (omega arith) same h.4,
      )

  pub Logged-append :
      (es : Region LogEntry) (ps : Region B) (ids : List ℕ) (off b : ℕ)
      → Logged es ps off ids
      → Logged es ps (off + log_size * length ids) (b ∷ [])
      → Logged es ps off (ids ++ b ∷ [])
  Logged-append es ps [] off b h new =
      let e : off + log_size * 0 ≡ off = omega arith in subst (λ o. Logged es ps o (b ∷ [])) e new
  Logged-append es ps (c ∷ ids) off b h new =
      let e : off + log_size * suc (length ids) ≡ off + log_size + log_size * length ids =
        omega arith in
      (
        h.0,
        h.1,
        h.2,
        h.3,
        Logged-append es ps ids (off + log_size) b h.4 (subst (λ o. Logged es ps o (b ∷ [])) e new),
      )
