-- ===== src/Storage/Locks.antt =====
-- The asynchronous locks of tokio that crates/graphnight-storage/src/yaml.rs holds its maps behind, as
-- one task sees them: when they are granted is a parameter. A lock is not reentrant: a task that awaits
-- it never goes on while it is held, and if the task holds it itself, never at all.
use graphnight.Base.{
  ◌≡◌, refl, ap, ◌∙◌, ℕ, Bool, true, false, Result, ok, err, if◌then◌else◌, if_true, if_false,
}
use graphnight.Storage.Backend.{StorageError}

-- `readers` counts the guards of other tasks; `writing` says that a guard for writing is held.
pub record RwLock (V : Type 0) : Type 0 where
  pub content : V
  pub readers : ℕ
  pub writing : Bool

abbrev pub new_lock : {V : Type 0} → V → RwLock V
new_lock v = record { content = v; readers = 0; writing = false }

-- What comes of a task: it waits for a lock for ever, or it ends with its result.
pub data Run (S A : Type 0) : Type 0 where
  waiting : S → Run S A
  finished : Result StorageError A → S → Run S A

-- The operator `?` behind an `await`.
infixl 5 ◌then◌
abbrev pub ◌then◌ : {S A B : Type 0} → Run S A → (A → S → Run S B) → Run S B
waiting s then next = waiting s
(finished (err e) s) then next = finished (err e) s
(finished (ok a) s) then next = next a s

-- What follows a task that has ended, whatever its result.
abbrev pub settled : {S A B : Type 0} → Run S A → (Result StorageError A → S → Run S B) → Run S B
settled (waiting s) next = waiting s
settled (finished r s) next = next r s

abbrev pub with_state : {S T A : Type 0} → (S → T) → Run S A → Run T A
with_state f (waiting s) = waiting (f s)
with_state f (finished r s) = finished r (f s)

-- A lock with the disk that its content is written to.
pub record Cell (V D : Type 0) : Type 0 where
  pub lock : RwLock V
  pub disk : D

-- What is done with a lock and the disk.
abbrev pub Task : Type 0 → Type 0 → Type 0 → Type 0
Task V D A = Cell V D → Run (Cell V D) A

module _ {V D : Type 0} where
  abbrev pub set_content : V → Cell V D → Cell V D
  set_content v c = record c { lock = record c.lock { content = v } }

  -- `drop` of a guard for writing.
  abbrev pub release : Cell V D → Cell V D
  release c = record c { lock = record c.lock { writing = false } }

  -- The end of the block that a guard for writing lives in.
  abbrev pub released : {A : Type 0} → Run (Cell V D) A → Run (Cell V D) A
  released (waiting c) = waiting c
  released (finished r c) = finished r (release c)

-- When a lock is granted that has a number of guards for reading and maybe one for writing.
pub record Locks : Type 0 where
  pub grants_read : ℕ → Bool → Bool
  pub grants_write : ℕ → Bool → Bool

-- What tokio documents: a guard for writing excludes every other, and a lock without guards is granted.
pub record IsExclusive (locks : Locks) : Type 0 where
  pub read_held : (n : ℕ) → locks.grants_read n true ≡ false
  pub read_free : locks.grants_read 0 false ≡ true
  pub write_held : (n : ℕ) → locks.grants_write n true ≡ false
  pub write_free : locks.grants_write 0 false ≡ true

module _ {V D A : Type 0} (locks : Locks) (c : Cell V D) (next : Task V D A) where
  -- `lock.read().await` and `lock.write().await`, with what is done behind them.
  unfoldable pub with_read : Run (Cell V D) A
  with_read = if locks.grants_read c.lock.readers c.lock.writing then next c else waiting c

  unfoldable pub with_write : Run (Cell V D) A
  with_write =
      if locks.grants_write c.lock.readers c.lock.writing
      then next (record c { lock = record c.lock { writing = true } })
      else waiting c

  module _ (laws : IsExclusive locks) where
    -- A lock that is held for writing is waited for, and a free one is not.
    pub with_read-held : c.lock.writing ≡ true → with_read ≡ waiting c
    unfolding with_read
    with_read-held h =
        if_false (λ r. r ≡ waiting c) (locks.grants_read c.lock.readers c.lock.writing) _ _
          (ap (locks.grants_read c.lock.readers) h ∙ laws.read_held c.lock.readers) refl

    pub with_write-held : c.lock.writing ≡ true → with_write ≡ waiting c
    unfolding with_write
    with_write-held h =
        if_false (λ r. r ≡ waiting c) (locks.grants_write c.lock.readers c.lock.writing) _ _
          (ap (locks.grants_write c.lock.readers) h ∙ laws.write_held c.lock.readers) refl

    pub with_read-free : c.lock.writing ≡ false → c.lock.readers ≡ 0 → with_read ≡ next c
    unfolding with_read
    with_read-free h k =
        if_true (λ r. r ≡ next c) (locks.grants_read c.lock.readers c.lock.writing) _ _
          (ap (locks.grants_read c.lock.readers) h
            ∙ ap (λ n. locks.grants_read n false) k
            ∙ laws.read_free)
          refl

    pub with_write-free :
        c.lock.writing ≡ false
        → c.lock.readers ≡ 0
        → with_write ≡ next (record c { lock = record c.lock { writing = true } })
    unfolding with_write
    with_write-free h k =
        if_true (λ r. r ≡ next (record c { lock = record c.lock { writing = true } }))
          (locks.grants_write c.lock.readers c.lock.writing) _ _
          (ap (locks.grants_write c.lock.readers) h
            ∙ ap (λ n. locks.grants_write n false) k
            ∙ laws.write_free)
          refl
