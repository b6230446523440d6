-- ===== src/Pm/WordArray.antt =====
-- Arrays of words of persistent memory: what is stored word by word, and flushed line by line.
use libcrpm.Base.{ℕ, ◌/◌, ◌==◌, if◌then◌else◌, update}
use libcrpm.Pm.Word.{Word}
use libcrpm.Pm.Word

abbrev pub store_at : (ℕ → Word) → ℕ → ℕ → ℕ → Word
store_at ws i v = update ws i (Word.store (ws i) v)

abbrev pub nt_store_at : (ℕ → Word) → ℕ → ℕ → ℕ → Word
nt_store_at ws i v = update ws i (Word.nt_store (ws i) v)

abbrev pub fence_all : (ℕ → Word) → ℕ → Word
fence_all ws j = Word.fence (ws j)

-- The words of one byte that share a cache line: `Flush` of the line `k`, and the copy of the line
-- from `src` past the cache.
abbrev pub flush_line : (ℕ → Word) → ℕ → ℕ → Word
flush_line ws k j = if j / 64 == k then Word.flush (ws j) else ws j

abbrev pub copy_line : (ℕ → Word) → (ℕ → Word) → ℕ → ℕ → Word
copy_line dst src k j = if j / 64 == k then Word.nt_store (dst j) (src j).value else dst j

abbrev pub flush_at : (ℕ → Word) → ℕ → ℕ → Word
flush_at ws i = update ws i (Word.flush (ws i))
