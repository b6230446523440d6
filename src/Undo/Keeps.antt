-- ===== src/Undo/Keeps.antt =====
-- What the instructions of an UndoLogEngine leave alone: the medium but for the log's free part.
use libcrpm.Base.{ℕ, ◌*◌, ◌<◌, ◌≤◌, ◌≡◌, refl, ◌∙◌, ap, List, [], length, All, arith, Bool}
use libcrpm.Pm.Region.{Region, clean, settled, flushing}
use libcrpm.Pm.Region
use libcrpm.Pm.Word.{Word, May, Among}
use libcrpm.Pm.Word
use libcrpm.Undo.Defs.{UndoLogEngine, LogEntry, log_size, store_fence}
use libcrpm.Undo.Hook.{entry_of, entry_instructions, publish_instructions}
use libcrpm.Undo.Log.{Logged, Kept, Logged-agree}

-- `s` has what `r` has before `end`, and is surely on the medium where `r` is.
pub record KeepsRegion {A : Type 0} (end : ℕ) (r s : Region A) : Type 0 where
  pub view : (o : ℕ) → o < end → s.view o ≡ r.view o
  pub clean : (o : ℕ) → o < end → r.status o ≡ clean → s.status o ≡ clean

-- The same, of each cell.
pub record KeepsAll {A : Type 0} (r s : Region A) : Type 0 where
  pub view : (o : ℕ) → s.view o ≡ r.view o
  pub clean : (o : ℕ) → r.status o ≡ clean → s.status o ≡ clean

module _ {A : Type 0} where
  pub KeepsRegion-refl : (end : ℕ) (r : Region A) → KeepsRegion end r r
  KeepsRegion-refl end r = record { view = λ o lt. refl; clean = λ o lt h. h }

  pub KeepsRegion-trans :
      (end : ℕ) (r s t : Region A) → KeepsRegion end r s → KeepsRegion end s t → KeepsRegion end r t
  KeepsRegion-trans end r s t h k = record {
    view = λ o lt. k.view o lt ∙ h.view o lt;
    clean = λ o lt c. k.clean o lt (h.clean o lt c);
  }

  pub KeepsAll-refl : (r : Region A) → KeepsAll r r
  KeepsAll-refl r = record { view = λ o. refl; clean = λ o h. h }

  pub KeepsAll-trans : (r s t : Region A) → KeepsAll r s → KeepsAll s t → KeepsAll r t
  KeepsAll-trans r s t h k = record {
    view = λ o. k.view o ∙ h.view o;
    clean = λ o c. k.clean o (h.clean o c);
  }

  pub fence-KeepsAll : (r : Region A) → KeepsAll r (Region.fence r)
  unfolding Region.fence
  fence-KeepsAll r = record { view = λ o. refl; clean = λ o h. ap settled h }

  pub fence-KeepsRegion : (end : ℕ) (r : Region A) → KeepsRegion end r (Region.fence r)
  unfolding Region.fence
  fence-KeepsRegion end r = record { view = λ o lt. refl; clean = λ o lt h. ap settled h }

  pub store-KeepsRegion :
      (end : ℕ) (r : Region A) (i : ℕ) (v : A) → end ≤ i → KeepsRegion end r (Region.store r i v)
  unfolding Region.store
  store-KeepsRegion end r i v le = record {
    view = λ o lt. ground arith;
    clean = λ o lt h. ground arith;
  }

  pub nt_store-KeepsRegion :
      (end : ℕ) (r : Region A) (i : ℕ) (v : A) → end ≤ i → KeepsRegion end r (Region.nt_store r i v)
  unfolding Region.nt_store
  nt_store-KeepsRegion end r i v le = record {
    view = λ o lt. ground arith;
    clean = λ o lt h. ground arith;
  }

  pub flush-KeepsRegion : (end : ℕ) (r : Region A) (i : ℕ) → KeepsRegion end r (Region.flush r i)
  unfolding Region.flush
  flush-KeepsRegion end r i = record { view = λ o lt. refl; clean = λ o lt h. ground arith }

module _ {B : Type 0} where
  pub record Keeps (end : ℕ) (e f : UndoLogEngine B) : Type 0 where
    pub entries : KeepsRegion end e.entries f.entries
    pub payloads : KeepsRegion end e.payloads f.payloads
    pub heap : KeepsAll e.heap f.heap

  -- The head of the log stays too.
  pub record Still (end : ℕ) (e f : UndoLogEngine B) : Type 0 where
    pub keeps : Keeps end e f
    pub head : f.header_log_head.value ≡ e.header_log_head.value
    pub sure : e.header_log_head.older ≡ [] → f.header_log_head.older ≡ []

  pub Keeps-refl : (end : ℕ) (e : UndoLogEngine B) → Keeps end e e
  Keeps-refl end e = record {
    entries = KeepsRegion-refl end e.entries;
    payloads = KeepsRegion-refl end e.payloads;
    heap = KeepsAll-refl e.heap;
  }

  pub Keeps-trans :
      (end : ℕ) (e f g : UndoLogEngine B) → Keeps end e f → Keeps end f g → Keeps end e g
  Keeps-trans end e f g h k = record {
    entries = KeepsRegion-trans end e.entries f.entries g.entries h.entries k.entries;
    payloads = KeepsRegion-trans end e.payloads f.payloads g.payloads h.payloads k.payloads;
    heap = KeepsAll-trans e.heap f.heap g.heap h.heap k.heap;
  }

  pub Still-refl : (end : ℕ) (e : UndoLogEngine B) → Still end e e
  Still-refl end e = record { keeps = Keeps-refl end e; head = refl; sure = λ h. h }

  pub Still-trans :
      (end : ℕ) (e f g : UndoLogEngine B) → Still end e f → Still end f g → Still end e g
  Still-trans end e f g h k = record {
    keeps = Keeps-trans end e f g h.keeps k.keeps;
    head = k.head ∙ h.head;
    sure = λ o. k.sure (h.sure o);
  }

  pub Still-volatile :
      (end : ℕ) (e : UndoLogEngine B) (n : ℕ) (locks : ℕ → Bool)
      → Still end e (record e { log_head = n; segment_locks = locks })
  Still-volatile end e n locks = record {
    keeps = record {
      entries = KeepsRegion-refl end e.entries;
      payloads = KeepsRegion-refl end e.payloads;
      heap = KeepsAll-refl e.heap;
    };
    head = refl;
    sure = λ h. h;
  }

  pub store_fence-Keeps : (end : ℕ) (e : UndoLogEngine B) → Keeps end e (store_fence e)
  unfolding store_fence
  store_fence-Keeps end e = record {
    entries = fence-KeepsRegion end e.entries;
    payloads = fence-KeepsRegion end e.payloads;
    heap = fence-KeepsAll e.heap;
  }

  pub store_fence-Still : (end : ℕ) (e : UndoLogEngine B) → Still end e (store_fence e)
  unfolding store_fence Word.fence
  store_fence-Still end e = record {
    keeps = store_fence-Keeps end e;
    head = refl;
    sure = λ h. ground arith;
  }

  entries-Still :
      (end : ℕ) (e : UndoLogEngine B) (es : Region LogEntry)
      → KeepsRegion end e.entries es
      → Still end e (record e { entries = es })
  entries-Still end e es k = record {
    keeps = record {
      entries = k;
      payloads = KeepsRegion-refl end e.payloads;
      heap = KeepsAll-refl e.heap;
    };
    head = refl;
    sure = λ h. h;
  }

  payloads-Still :
      (end : ℕ) (e : UndoLogEngine B) (ps : Region B)
      → KeepsRegion end e.payloads ps
      → Still end e (record e { payloads = ps })
  payloads-Still end e ps k = record {
    keeps = record {
      entries = KeepsRegion-refl end e.entries;
      payloads = k;
      heap = KeepsAll-refl e.heap;
    };
    head = refl;
    sure = λ h. h;
  }

  -- Writing an entry at `last` leaves what lies before it alone.
  pub entry_instructions-Still :
      (end last b : ℕ)
      → end ≤ last
      → All (λ i. (e : UndoLogEngine B) → Still end e (i e)) (entry_instructions last b)
  entry_instructions-Still end last b le = (
    λ e. entries-Still end e _ (store-KeepsRegion end e.entries last (entry_of b) le),
    (
      λ e. entries-Still end e _ (flush-KeepsRegion end e.entries last),
      (
        λ e. payloads-Still end e _ (nt_store-KeepsRegion end e.payloads last _ le),
        (store_fence-Still end, tt),
      ),
    ),
  )

  head-Keeps :
      (end : ℕ) (e : UndoLogEngine B) (w : Word) → Keeps end e (record e { header_log_head = w })
  head-Keeps end e w = record {
    entries = KeepsRegion-refl end e.entries;
    payloads = KeepsRegion-refl end e.payloads;
    heap = KeepsAll-refl e.heap;
  }

  -- Publishing the head touches the word of the head alone.
  pub publish_instructions-Keeps :
      (end last : ℕ)
      → All (λ i. (e : UndoLogEngine B) → Keeps end e (i e)) (publish_instructions last)
  publish_instructions-Keeps end last =
      (λ e. head-Keeps end e _, (λ e. head-Keeps end e _, (store_fence-Keeps end, tt)))

  pub Keeps-Logged :
      (snap : ℕ → B) (end : ℕ) (e f : UndoLogEngine B)
      → Keeps end e f
      → (ids : List ℕ) → log_size * length ids ≤ end
      → Logged snap e.entries e.payloads 0 ids
      → Logged snap f.entries f.payloads 0 ids
  Keeps-Logged snap end e f k ids fits h =
      Logged-agree snap ids 0 end (omega arith)
        (λ o lt.
          (k.entries.view o lt, k.entries.clean o lt, k.payloads.view o lt, k.payloads.clean o lt))
        h

  pub Keeps-Kept :
      (snap : ℕ → B) (end : ℕ) (e f : UndoLogEngine B)
      → Keeps end e f
      → (ids : List ℕ) → Kept snap e.heap ids
      → Kept snap f.heap ids
  Keeps-Kept snap end e f k ids h b out = (k.heap.view b ∙ (h b out).0, k.heap.clean b (h b out).1)
