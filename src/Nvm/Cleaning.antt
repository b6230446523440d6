-- ===== src/Nvm/Cleaning.antt =====
-- The cleaner of NvmInstEngine comes to its end: every wait for it returns.
use libcrpm.Base.{
  ℕ, zero, suc, ◌+◌, ◌-◌, ◌<◌, ◌≡◌, ◌⊎◌, inl, inr, refl, sym, ◌∙◌, ap, subst, true, false, ◌==◌,
  update, ok, ◌>>=◌, Returns, Returns-bind, arith, Bool-cases,
}
use libcrpm.Constants.{null_segment_index}
use libcrpm.Image.Defs.{ss_main, get_segment_state}
use libcrpm.Nvm.Defs.{
  NvmInstEngine, wb_started, wb_running, wb_idle, lock_of, acquire_lock, release_lock,
}
use libcrpm.Nvm.WriteBack.{write_back, lazy_locked, lazy_write_back}
use libcrpm.Nvm.Checkpoint.{is_busy}
use libcrpm.Nvm.Cleaner.{
  Cleaner, cleaned, cleaner_round_in, cleaner_round, wait_for_background_task,
}

module _ {B : Type 0} where
  -- What a write-back leaves alone.
  record IsSteady (e g : NvmInstEngine B) : Type 0 where
    state : g.cleaner_state ≡ e.cleaner_state
    in_progress : g.checkpoint_in_progress ≡ e.checkpoint_in_progress
    size : g.nr_segments ≡ e.nr_segments
    locks_free : (l : ℕ) → g.segment_locks l ≡ false

  abbrev AllFree : NvmInstEngine B → Type 0
  AllFree e = (l : ℕ) → e.segment_locks l ≡ false

  abbrev locked : NvmInstEngine B → ℕ → NvmInstEngine B
  locked e seg = record e { segment_locks = update e.segment_locks (lock_of seg) true }

  released-IsSteady :
      (e : NvmInstEngine B) (seg : ℕ)
      → AllFree e
      → IsSteady e (release_lock (locked e seg) (lock_of seg))
  unfolding release_lock
  released-IsSteady e seg free = record {
    state = refl;
    in_progress = refl;
    size = refl;
    locks_free = λ l. ground (arith, free l);
  }

  written-IsSteady :
      (e : NvmInstEngine B) (seg back attribute : ℕ)
      → AllFree e
      → IsSteady e (write_back (locked e seg) seg back attribute false false)
  unfolding write_back release_lock
  written-IsSteady e seg back attribute free = record {
    state = refl;
    in_progress = refl;
    size = refl;
    locks_free = λ l. ground (arith, free l);
  }

  lazy_locked-IsSteady :
      (e : NvmInstEngine B) (seg : ℕ)
      → AllFree e
      → Returns (λ r. IsSteady e r.0) (lazy_locked (locked e seg) seg false)
  unfolding lazy_locked
  lazy_locked-IsSteady e seg free =
      elim (Bool-cases (e.image.main_to_back seg == null_segment_index)) [
        | inl none ↦ elim (Bool-cases (get_segment_state e.image seg == ss_main)) [
          | inl in_main ↦ simp (none, in_main) (released-IsSteady e seg free)
          | inr elsewhere ↦ simp (none, elsewhere) (released-IsSteady e seg free)
        ]
        | inr some ↦ elim (Bool-cases (get_segment_state e.image seg == ss_main)) [
          | inl in_main ↦ simp (some, in_main) (written-IsSteady e seg _ _ free)
          | inr elsewhere ↦ simp (some, elsewhere) (released-IsSteady e seg free)
        ]
      ]

  lazily-IsSteady :
      (e : NvmInstEngine B) (seg : ℕ)
      → AllFree e
      → Returns (λ r. IsSteady e r.0) (lazy_write_back e seg false)
  unfolding lazy_write_back acquire_lock
  lazily-IsSteady e seg free = simp (free (lock_of seg)) (lazy_locked-IsSteady e seg free)

  -- The cleaner has come to its end.
  pub record IsDone (c : Cleaner B) : Type 0 where
    pub idle : c.engine.cleaner_state ≡ wb_idle
    pub no_traffic : c.engine.checkpoint_traffic ≡ 0

  -- The cleaner is at work, with nothing in its way and `n` more segments after this one.
  record IsCleaning (n : ℕ) (c : Cleaner B) : Type 0 where
    running : c.engine.cleaner_state ≡ wb_running
    between : c.engine.checkpoint_in_progress ≡ false
    free : AllFree c.engine
    left : c.segment_id + suc n ≡ c.engine.nr_segments

  wait-idle :
      (n : ℕ) (c : Cleaner B)
      → c.engine.cleaner_state ≡ wb_idle
      → Returns IsDone (wait_for_background_task (suc n) c)
  unfolding wait_for_background_task
  wait-idle n c idle =
      let quiet : is_busy c.engine.cleaner_state ≡ false = ap is_busy idle in
      simp quiet (record { idle = idle; no_traffic = refl })

  wait-busy :
      (n : ℕ) (c : Cleaner B)
      → is_busy c.engine.cleaner_state ≡ true
      → wait_for_background_task (suc n) c ≡ (cleaner_round c >>= wait_for_background_task n)
  unfolding wait_for_background_task
  wait-busy n c busy = simp busy refl

  -- After a segment the cleaner has one segment less before it, or has come to its end.
  abbrev GoesOn : ℕ → Cleaner B → Type 0
  GoesOn n d =
      ((n ≡ 0) × (d.engine.cleaner_state ≡ wb_idle)) ⊎ ((k : ℕ) × (n ≡ suc k) × IsCleaning k d)

  round_running :
      (c : Cleaner B)
      → c.engine.cleaner_state ≡ wb_running
      → c.engine.checkpoint_in_progress ≡ false
      → cleaner_round c ≡ (lazy_write_back c.engine c.segment_id false >>= λ r. ok (cleaned c r.0))
  unfolding cleaner_round cleaner_round_in
  round_running c running between = ap (λ t. cleaner_round_in t c) running ∙ simp between refl

  cleaned-GoesOn :
      (n : ℕ) (c : Cleaner B) (e : NvmInstEngine B)
      → IsCleaning n c
      → IsSteady c.engine e
      → GoesOn n (cleaned c e)
  unfolding cleaned
  cleaned-GoesOn zero c e h t =
      let last : (c.segment_id + 1 == e.nr_segments) ≡ true = ground (arith, h.left, t.size) in
      inl (refl, simp last refl)
  cleaned-GoesOn (suc k) c e h t =
      let more : (c.segment_id + 1 == e.nr_segments) ≡ false = ground (arith, h.left, t.size) in
      inr (
        k,
        refl,
        record {
          running = simp more (t.state ∙ h.running);
          between = simp more (t.in_progress ∙ h.between);
          free = simp more t.locks_free;
          left = simp more (omega (arith, h.left, t.size));
        },
      )

  one_segment : (n : ℕ) (c : Cleaner B) → IsCleaning n c → Returns (GoesOn n) (cleaner_round c)
  one_segment n c h = subst (Returns (GoesOn n)) (sym (round_running c h.running h.between)) (
      Returns-bind (λ r. IsSteady c.engine r.0) (GoesOn n)
        (lazy_write_back c.engine c.segment_id false) (λ r. ok (cleaned c r.0))
        (lazily-IsSteady c.engine c.segment_id h.free) (λ r t. cleaned-GoesOn n c r.0 h t))

  wait-running :
      (n : ℕ) (c : Cleaner B)
      → IsCleaning n c
      → Returns IsDone (wait_for_background_task (suc (suc n)) c)
  wait-running zero c h = subst (Returns IsDone) (sym (wait-busy 1 c (ap is_busy h.running))) (
      Returns-bind (GoesOn 0) IsDone (cleaner_round c) (wait_for_background_task 1)
        (one_segment 0 c h)
        (λ d g. elim g [
          | inl last ↦ wait-idle 0 d last.1
          | inr more ↦ absurd (omega (arith, more.1))
        ]))
  wait-running (suc m) c h =
      subst (Returns IsDone) (sym (wait-busy (suc (suc m)) c (ap is_busy h.running))) (
        Returns-bind (GoesOn (suc m)) IsDone (cleaner_round c)
          (wait_for_background_task (suc (suc m))) (one_segment (suc m) c h)
          (λ d g. elim g [
            | inl last ↦ absurd (omega (arith, last.0))
            | inr more ↦
                let same : more.0 ≡ m = omega (arith, more.1) in
                wait-running m d (subst (λ j. IsCleaning j d) same more.2)
          ]))

  round_started :
      (c : Cleaner B)
      → c.engine.cleaner_state ≡ wb_started
      → cleaner_round c
        ≡ ok (record { engine = record c.engine { cleaner_state = wb_running }; segment_id = 0 })
  unfolding cleaner_round cleaner_round_in
  round_started c started = ap (λ t. cleaner_round_in t c) started

  wait-started :
      (n : ℕ) (c : Cleaner B)
      → c.engine.cleaner_state ≡ wb_started
      → c.engine.checkpoint_in_progress ≡ false
      → AllFree c.engine
      → suc n ≡ c.engine.nr_segments
      → Returns IsDone (wait_for_background_task (suc (suc (suc n))) c)
  wait-started n c started between free size =
      subst (Returns IsDone)
        (sym (
          wait-busy (suc (suc n)) c (ap is_busy started)
          ∙ ap (λ r. r >>= wait_for_background_task (suc (suc n))) (round_started c started)))
        (wait-running n _
          (record { running = refl; between = between; free = free; left = omega (arith, size) }))

  -- From a cleaner that a checkpoint has just started, with no checkpoint in progress, all locks of
  -- segments free and at least one segment, waiting for the background task comes to its end within
  -- one round for each segment, one for the start and one more look: the cleaner is idle and the
  -- traffic is reset.
  pub wait_for_background_task-IsDone :
      (c : Cleaner B)
      → c.engine.cleaner_state ≡ wb_started
      → c.engine.checkpoint_in_progress ≡ false
      → ((l : ℕ) → c.engine.segment_locks l ≡ false)
      → 0 < c.engine.nr_segments
      → Returns IsDone (wait_for_background_task (c.engine.nr_segments + 2) c)
  wait_for_background_task-IsDone c started between free some =
      subst (λ n. Returns IsDone (wait_for_background_task n c)) (omega (arith, some))
        (wait-started (c.engine.nr_segments - 1) c started between free (omega (arith, some)))
