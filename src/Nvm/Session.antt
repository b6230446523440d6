-- ===== src/Nvm/Session.antt =====
-- A run of stores of the threads of an instrumented program between two checkpoints.
use libcrpm.Base.{
  ℕ, ◌-◌, ◌/◌, ◌<◌, ◌≡◌, refl, ◌∙◌, ap, true, List, [], ◌∷◌, ◌==◌, if◌then◌else◌, update, Outcome,
  ok, ◌>>=◌, Returns, Returns-bind, Returns-map, All,
}
use libcrpm.Constants.{block_size, max_threads}
use libcrpm.Nvm.Defs.{NvmInstEngine}
use libcrpm.Nvm.Program.{Program, covers, instrumented_store}
use libcrpm.Nvm.Protection.{Snapshot}
use libcrpm.Nvm.Covering.{IsSafe}
use libcrpm.Nvm.Invariant.{IsProtected-IsSafe}
use libcrpm.Nvm.Stores.{HasStored, instrumented_store-HasStored}
use libcrpm.Nvm.Running.{IsRunning}

-- A store of a thread: its address, and what it leaves in the block of the address.
pub record Store (B : Type 0) : Type 0 where
  pub tid : ℕ
  pub addr : ℕ
  pub value : B

module _ {B : Type 0} where
  unfoldable pub instrumented_stores : Program B → List (Store B) → Outcome (Program B)
  instrumented_stores p [] = ok p
  instrumented_stores p (w ∷ ws) =
      instrumented_store p w.tid w.addr w.value >>= λ q. instrumented_stores q ws

  -- The blocks after the stores, for a program without any checkpoint.
  abbrev pub plain_stores : ℕ → (ℕ → B) → List (Store B) → ℕ → B
  plain_stores first blocks [] = blocks
  plain_stores first blocks (w ∷ ws) =
      plain_stores first (update blocks ((w.addr - first) / block_size) w.value) ws

  abbrev pub IsValidStore : NvmInstEngine B → Store B → Type 0
  IsValidStore e w = (covers e w.addr ≡ true) × (w.tid < max_threads)

  -- The program sees its own stores, and a crash leaves the checkpoint.
  pub record HasRun (s : Snapshot B) (p : Program B) (ws : List (Store B)) (q : Program B)
      : Type 0 where
    pub states : ℕ → ℕ
    pub running : IsRunning s states q
    pub safe : IsSafe s q.engine.image
    pub blocks :
        (x : ℕ)
        → q.engine.image.main_memory.view x
          ≡ plain_stores p.engine.address_first p.engine.image.main_memory.view ws x

  plain_stores_same :
      (first : ℕ) (ws : List (Store B)) (f g : ℕ → B) (x : ℕ)
      → ((y : ℕ) → f y ≡ g y)
      → plain_stores first f ws x ≡ plain_stores first g ws x
  plain_stores_same first [] f g x same = same x
  plain_stores_same first (w ∷ ws) f g x same =
      plain_stores_same first ws _ _ x
        (λ y. ap (λ b. if (w.addr - first) / block_size == y then w.value else b) (same y))

  valid_later :
      (e g : NvmInstEngine B) (ws : List (Store B))
      → (g.address_first ≡ e.address_first) × (g.capacity ≡ e.capacity)
      → All (IsValidStore e) ws
      → All (IsValidStore g) ws
  valid_later e g [] range valid = tt
  valid_later e g (w ∷ ws) range valid =
      ((rw (range.0, range.1) valid.0.0, valid.0.1), valid_later e g ws range valid.1)

  -- Over an engine that protects a checkpoint, whose segments all have a back segment, which does
  -- not skip the copy on write, and whose locks are free, a sequence of stores by threads with an
  -- id to addresses of the pool, each after the call of the hook for its address, returns; the
  -- engine protects the checkpoint as before, whatever a crash leaves then the recovery finds the
  -- checkpoint, and the program reads its own stores.
  pub instrumented_stores-HasRun :
      (s : Snapshot B) (old : ℕ → ℕ) (p : Program B) (ws : List (Store B))
      → IsRunning s old p
      → All (IsValidStore p.engine) ws
      → Returns (HasRun s p ws) (instrumented_stores p ws)
  unfolding instrumented_stores
  instrumented_stores-HasRun s old p [] r valid = record {
    states = old;
    running = r;
    safe = IsProtected-IsSafe s _ old p.engine r.protected;
    blocks = λ x. refl;
  }
  instrumented_stores-HasRun s old p (w ∷ ws) r valid =
      Returns-bind (HasStored s p w.addr w.value) (HasRun s p (w ∷ ws))
        (instrumented_store p w.tid w.addr w.value) (λ q. instrumented_stores q ws)
        (instrumented_store-HasStored s p w.addr w.value old w.tid r valid.0.0 valid.0.1)
        (λ q h.
          Returns-map (HasRun s q ws) (HasRun s p (w ∷ ws)) (instrumented_stores q ws)
            (λ z run. record {
              states = run.states;
              running = run.running;
              safe = run.safe;
              blocks = λ x.
                  run.blocks x
                  ∙ ap (λ first. plain_stores first q.engine.image.main_memory.view ws x)
                      h.same_range.0
                  ∙ plain_stores_same p.engine.address_first ws _ _ x h.written;
            })
            (instrumented_stores-HasRun s h.states q ws h.running
              (valid_later p.engine q.engine ws h.same_range valid.1)))
