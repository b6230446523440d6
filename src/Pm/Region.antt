-- ===== src/Pm/Region.antt =====
-- Arrays of persistent memory that a crash may tear: the stores of runtime/include/internal/common.h.
use libcrpm.Base.{ℕ, ◌≡◌, update}

-- Whether the medium surely holds what the processor reads, will at the next fence, or may not.
pub data Status : Type 0 where
  clean flushing dirty : Status

abbrev pub flushed : Status → Status
flushed clean = clean
flushed flushing = flushing
flushed dirty = flushing

abbrev pub settled : Status → Status
settled clean = clean
settled flushing = clean
settled dirty = dirty

-- An array of cells that the hardware may tear, such as blocks or segments of user data: of a cell
-- that is not clean nothing is known after a crash.
pub record Region {ℓ} (A : Type ℓ) : Type ℓ where
  pub view : ℕ → A
  pub status : ℕ → Status

-- What a file holds is on the medium.
abbrev pub on_medium {ℓ} : {A : Type ℓ} → (ℕ → A) → Region A
on_medium m = record { view = m; status = λ i. clean }

module _ {ℓ} {A : Type ℓ} where
  unfoldable pub store : Region A → ℕ → A → Region A
  store r i v = record { view = update r.view i v; status = update r.status i dirty }

  -- `Flush` of every line of the cell.
  unfoldable pub flush : Region A → ℕ → Region A
  flush r i = record r { status = update r.status i (flushed (r.status i)) }

  -- A store past the cache: `NTStore`, `NonTemporalCopy64`, `NonTemporalCopy256`.
  unfoldable pub nt_store : Region A → ℕ → A → Region A
  nt_store r i v = record { view = update r.view i v; status = update r.status i flushing }

  unfoldable pub fence : Region A → Region A
  fence r = record r { status = λ i. settled (r.status i) }

  -- `WriteBackAndInvalidate`: the whole cache is written back.
  unfoldable pub write_back_all : Region A → Region A
  write_back_all r = record r { status = λ i. flushed (r.status i) }

  -- What the medium may hold after a crash.
  abbrev pub Survives : Region A → (ℕ → A) → Type ℓ
  Survives r m = (i : ℕ) → r.status i ≡ clean → m i ≡ r.view i
