-- ===== src/Storage/Yaml/Live.antt =====
-- Which operations of yaml.rs come to an end: the guards each takes and drops.
use graphnight.Base.{
  ℕ, suc, ◌≡◌, refl, ap, String, Bool, true, false, Option, List, [], ◌∷◌, Result, ok, err, All,
  length, if◌then◌else◌, if_true, ◌∙◌,
}
use graphnight.Core.Models.{Model, DataSource}
use graphnight.Runtime.Memory.{Memory}
use graphnight.Storage.Backend.{StorageError}
use graphnight.Storage.Table.{Table}
use graphnight.Storage.Locks.{
  RwLock, IsExclusive, Run, waiting, finished, ◌then◌, settled, with_state, Cell, Task,
}
use graphnight.Storage.Files.{Host, lookup}
use graphnight.Storage.Files.Ends.{
  Ends, EndsIn, ended, FreeLock, FreeCell, then-EndsIn, with_read-EndsIn, with_write-EndsIn,
  persist-EndsIn, load_file-EndsIn, create-EndsIn, update-EndsIn, delete-EndsIn, save-EndsIn,
}
use graphnight.Storage.Yaml.{
  YamlStorage, Libraries, at_models, at_datasources, at_memories, at_priority, load, set_priority,
  backed_up, backup_text, backup, reading, model_kind, datasource_kind, memory_kind,
}
use graphnight.Storage.Yaml.Calls.{
  Operation, Answer, answer, perform, perform_all, read_values, load_all, list_models, get_model,
  create_model, update_model, delete_model, list_datasources, get_datasource, create_datasource,
  update_datasource, delete_datasource, get_datasource_priority, set_datasource_priority,
  save_memory, get_memory, list_memories, delete_memory, index_model, search, backup_to,
  restore_from,
}

abbrev pub Free : {D : Type 0} → YamlStorage D → Type 0
Free s = FreeLock s.models × FreeLock s.datasources × FreeLock s.memories × FreeLock s.priority

module _ {D A : Type 0} (s : YamlStorage D) (free : Free s) where
  with_state-EndsIn :
      {C : Type 0} (f : C → YamlStorage D) (F : C → Type 0) (run : Run C A)
      → ((c : C) → F c → Free (f c))
      → EndsIn F run
      → EndsIn Free (with_state f run)
  with_state-EndsIn f F (waiting c) k h = elim h [ ]
  with_state-EndsIn f F (finished r c) k (ended h) = ended (k c h)

  at_models-EndsIn :
      (task : Task (Table Model) D A)
      → EndsIn FreeCell (task (record { lock = s.models; disk = s.disk }))
      → EndsIn Free (at_models s task)
  unfolding at_models
  at_models-EndsIn task h = with_state-EndsIn _ FreeCell _ (λ c k. (k, free.1, free.2, free.3)) h

  at_datasources-EndsIn :
      (task : Task (Table DataSource) D A)
      → EndsIn FreeCell (task (record { lock = s.datasources; disk = s.disk }))
      → EndsIn Free (at_datasources s task)
  unfolding at_datasources
  at_datasources-EndsIn task h =
      with_state-EndsIn _ FreeCell _ (λ c k. (free.0, k, free.2, free.3)) h

  at_memories-EndsIn :
      (task : Task (Table Memory) D A)
      → EndsIn FreeCell (task (record { lock = s.memories; disk = s.disk }))
      → EndsIn Free (at_memories s task)
  unfolding at_memories
  at_memories-EndsIn task h = with_state-EndsIn _ FreeCell _ (λ c k. (free.0, free.1, k, free.3)) h

  at_priority-EndsIn :
      (task : Task (List String) D A)
      → EndsIn FreeCell (task (record { lock = s.priority; disk = s.disk }))
      → EndsIn Free (at_priority s task)
  unfolding at_priority
  at_priority-EndsIn task h = with_state-EndsIn _ FreeCell _ (λ c k. (free.0, free.1, free.2, k)) h

  answer-EndsIn :
      (f : A → Answer) (run : Run (YamlStorage D) A) → EndsIn Free run → EndsIn Free (answer f run)
  answer-EndsIn f run h = then-EndsIn Free run _ h (λ a s k. ended k)

read_values-EndsIn :
    {V D A : Type 0} (host : Host D) (laws : IsExclusive host.locks) (f : V → A) (c : Cell V D)
    → FreeCell c
    → EndsIn FreeCell (read_values host f c)
read_values-EndsIn host laws f c h = with_read-EndsIn host.locks laws c _ h (ended h)

lookup-EndsIn :
    {V D : Type 0} (host : Host D) (laws : IsExclusive host.locks) (shown : Option V → Option V)
    (name : String) (c : Cell (Table V) D)
    → FreeCell c
    → EndsIn FreeCell (lookup host shown name c)
unfolding lookup
lookup-EndsIn host laws shown name c h = with_read-EndsIn host.locks laws c _ h (ended h)

abbrev pub restores : Operation → Bool
restores (restore_from path) = true
restores _ = false

module _ {D : Type 0} (libs : Libraries D) (laws : IsExclusive libs.host.locks) where
  load-EndsIn : (s : YamlStorage D) → Free s → EndsIn Free (load libs s)
  unfolding load
  load-EndsIn s h =
      then-EndsIn Free _ _
        (at_models-EndsIn s h _ (load_file-EndsIn libs.host laws _ libs.models _ _ h.0))
        (λ u s h.
          then-EndsIn Free _ _
            (at_datasources-EndsIn s h _
              (load_file-EndsIn libs.host laws _ libs.datasources _ _ h.1))
            (λ u s h.
              then-EndsIn Free _ _
                (at_memories-EndsIn s h _ (load_file-EndsIn libs.host laws _ libs.memories _ _ h.2))
                (λ u s h.
                  at_priority-EndsIn s h _
                    (load_file-EndsIn libs.host laws _ libs.priority _ _ h.3))))

  set_priority-EndsIn :
      (names : List String) (c : Cell (List String) D) (path : String)
      → FreeCell c
      → EndsIn FreeCell (set_priority libs names c path)
  unfolding set_priority
  set_priority-EndsIn names c path h =
      with_write-EndsIn libs.host.locks laws c _ h
        (persist-EndsIn libs.host laws path libs.priority _ _ (refl, h.1))

  backed_up-EndsIn :
      (w : Result String Unit × D) (s : YamlStorage D) → Free s → EndsIn Free (backed_up libs w s)
  unfolding backed_up
  backed_up-EndsIn (ok u, d) s h = ended h
  backed_up-EndsIn (err e, d) s h = ended h

  backup_text-EndsIn :
      (path : String) (r : Result String String) (s : YamlStorage D)
      → Free s
      → EndsIn Free (backup_text libs path r s)
  unfolding backup_text
  backup_text-EndsIn path (ok text) s h = backed_up-EndsIn (libs.host.write path text s.disk) s h
  backup_text-EndsIn path (err e) s h = ended h

  reading-EndsIn :
      {V A : Type 0} (lock : RwLock V) (s : YamlStorage D) (next : Run (YamlStorage D) A)
      → FreeLock lock
      → EndsIn Free next
      → EndsIn Free (reading libs lock s next)
  unfolding reading
  reading-EndsIn lock s next h k =
      if_true (EndsIn Free) (libs.host.locks.grants_read lock.readers lock.writing) _ _
        (ap (libs.host.locks.grants_read lock.readers) h.0
          ∙ ap (λ n. libs.host.locks.grants_read n false) h.1
          ∙ laws.read_free)
        k

  backup-EndsIn :
      (now : ℕ) (path : String) (s : YamlStorage D) → Free s → EndsIn Free (backup libs now path s)
  unfolding backup
  backup-EndsIn now path s h = reading-EndsIn s.models s _ h.0 (
      reading-EndsIn s.datasources s _ h.1 (
        reading-EndsIn s.memories s _ h.2
          (reading-EndsIn s.priority s _ h.3 (backup_text-EndsIn path _ s h))))

  perform-EndsIn :
      (op : Operation) (s : YamlStorage D)
      → restores op ≡ false
      → Free s
      → EndsIn Free (perform libs op s)
  unfolding perform
  perform-EndsIn load_all s r h = answer-EndsIn s h _ _ (load-EndsIn s h)
  perform-EndsIn (list_models ds) s r h =
      answer-EndsIn s h _ _ (at_models-EndsIn s h _ (read_values-EndsIn libs.host laws _ _ h.0))
  perform-EndsIn (get_model name ds) s r h =
      answer-EndsIn s h _ _ (at_models-EndsIn s h _ (lookup-EndsIn libs.host laws _ name _ h.0))
  perform-EndsIn (create_model m) s r h =
      answer-EndsIn s h _ _
        (at_models-EndsIn s h _ (create-EndsIn libs.host laws _ (model_kind libs) _ h.0 m))
  perform-EndsIn (update_model name m) s r h =
      answer-EndsIn s h _ _
        (at_models-EndsIn s h _ (update-EndsIn libs.host laws _ (model_kind libs) _ h.0 name m))
  perform-EndsIn (delete_model name ds) s r h =
      answer-EndsIn s h _ _
        (at_models-EndsIn s h _ (delete-EndsIn libs.host laws _ (model_kind libs) _ h.0 _ name))
  perform-EndsIn list_datasources s r h =
      answer-EndsIn s h _ _
        (at_datasources-EndsIn s h _ (read_values-EndsIn libs.host laws _ _ h.1))
  perform-EndsIn (get_datasource name) s r h =
      answer-EndsIn s h _ _
        (at_datasources-EndsIn s h _ (lookup-EndsIn libs.host laws _ name _ h.1))
  perform-EndsIn (create_datasource d) s r h =
      answer-EndsIn s h _ _ (
        at_datasources-EndsIn s h _ (create-EndsIn libs.host laws _ (datasource_kind libs) _ h.1 d))
  perform-EndsIn (update_datasource name d) s r h = answer-EndsIn s h _ _ (
      at_datasources-EndsIn s h _
        (update-EndsIn libs.host laws _ (datasource_kind libs) _ h.1 name d))
  perform-EndsIn (delete_datasource name) s r h = answer-EndsIn s h _ _ (
      at_datasources-EndsIn s h _
        (delete-EndsIn libs.host laws _ (datasource_kind libs) _ h.1 _ name))
  perform-EndsIn get_datasource_priority s r h =
      answer-EndsIn s h _ _ (at_priority-EndsIn s h _ (read_values-EndsIn libs.host laws _ _ h.3))
  perform-EndsIn (set_datasource_priority p) s r h =
      answer-EndsIn s h _ _ (at_priority-EndsIn s h _ (set_priority-EndsIn p _ _ h.3))
  perform-EndsIn (save_memory m) s r h =
      answer-EndsIn s h _ _
        (at_memories-EndsIn s h _ (save-EndsIn libs.host laws _ (memory_kind libs) _ h.2 m))
  perform-EndsIn (get_memory id) s r h =
      answer-EndsIn s h _ _ (at_memories-EndsIn s h _ (lookup-EndsIn libs.host laws _ id _ h.2))
  perform-EndsIn (list_memories filter) s r h =
      answer-EndsIn s h _ _ (at_memories-EndsIn s h _ (read_values-EndsIn libs.host laws _ _ h.2))
  perform-EndsIn (delete_memory id) s r h =
      answer-EndsIn s h _ _
        (at_memories-EndsIn s h _ (delete-EndsIn libs.host laws _ (memory_kind libs) _ h.2 _ id))
  perform-EndsIn (index_model m) s r h = ended h
  perform-EndsIn (search query limit) s r h =
      answer-EndsIn s h _ _ (at_models-EndsIn s h _ (read_values-EndsIn libs.host laws _ _ h.0))
  perform-EndsIn (backup_to now path) s r h = answer-EndsIn s h _ _ (backup-EndsIn now path s h)
  perform-EndsIn (restore_from path) s r h = cc

-- As many answers as operations, with every lock free.
abbrev pub Answered :
    {D : Type 0}
    → ℕ
    → Result StorageError (List (Result StorageError Answer))
    → YamlStorage D
    → Type 0
Answered n (ok answers) s = (length answers ≡ n) × Free s
Answered n (err e) s = ⊥

settled-Ends :
    {S A B : Type 0} (F : S → Type 0) (P : Result StorageError B → S → Type 0) (run : Run S A)
    (next : Result StorageError A → S → Run S B)
    → EndsIn F run
    → ((r : Result StorageError A) (s : S) → F s → Ends P (next r s))
    → Ends P (settled run next)
settled-Ends F P (waiting s) next h k = elim h [ ]
settled-Ends F P (finished r s) next (ended h) k = k r s h

one_more :
    {D : Type 0} (n : ℕ) (r : Result StorageError Answer)
    (run : Run (YamlStorage D) (List (Result StorageError Answer)))
    → Ends (Answered n) run
    → Ends (Answered (suc n)) (run then λ rs s. finished (ok (r ∷ rs)) s)
one_more n r (waiting s) h = h
one_more n r (finished (ok rs) s) (len, h) = (ap suc len, h)
one_more n r (finished (err e) s) h = h

-- Operations that are none a restore come all to an end, one behind the other, each with its answer, and
-- leave every lock free, if the locks are free at first.
pub perform_all-Answered :
    {D : Type 0} (libs : Libraries D) (ops : List Operation) (s : YamlStorage D)
    → IsExclusive libs.host.locks
    → All (λ op. restores op ≡ false) ops
    → Free s
    → Ends (Answered (length ops)) (perform_all libs ops s)
unfolding perform_all
perform_all-Answered libs [] s laws r h = (refl, h)
perform_all-Answered libs (op ∷ ops) s laws (r, rs) h =
    settled-Ends Free _ (perform libs op s) _ (perform-EndsIn libs laws op s r h)
      (λ a t k. one_more (length ops) a _ (perform_all-Answered libs ops t laws rs k))
