-- ===== src/Storage/Yaml/Stuck.antt =====
-- What `restore` of yaml.rs does with the lock of the models.
use graphnight.Base.{
  ℕ, ◌≡◌, ◌∙◌, ap, if_true, if_false, refl, String, Bool, true, false, ok, ◌==◌, eq_iff, List, [],
}
use graphnight.Core.Models.{Model}
use graphnight.Storage.Backend.{StorageBackup}
use graphnight.Storage.Table.{Table, fill}
use graphnight.Storage.Locks.{
  waiting, Task, released, IsExclusive, with_read-held, with_write-held, with_write-free,
}
use graphnight.Storage.Files.{persist, create, update, delete, lookup, restore_table}
use graphnight.Storage.Yaml.{
  YamlStorage, Libraries, model_kind, models_path, reading, at_models, backup, restore,
  restore_text, restore_parsed, restore_backup,
}
use graphnight.Storage.Yaml.Calls.{
  Operation, Answer, answer, done, perform, list_models, get_model, create_model, update_model,
  delete_model, search, backup_to,
}
use graphnight.Storage.Yaml.Live.{Free}
use graphnight.Storage.Files.Ends.{FreeLock}

-- The operations that take the lock of the models.
abbrev pub takes_models : Operation → Bool
takes_models (list_models ds) = true
takes_models (get_model name ds) = true
takes_models (create_model m) = true
takes_models (update_model name m) = true
takes_models (delete_model name ds) = true
takes_models (search query limit) = true
takes_models (backup_to now path) = true
takes_models _ = false

-- The storage with the models of a backup, whose lock is held.
abbrev pub with_held_models : {D : Type 0} → StorageBackup → YamlStorage D → YamlStorage D
with_held_models b s = record s {
  models = record s.models { content = fill (λ (m : Model). m.name) b.models []; writing = true };
}

module _ {D : Type 0} (s : YamlStorage D) where
  answer-waiting :
      {A : Type 0} (f : A → Answer) (task : Task (Table Model) D A)
      → task (record { lock = s.models; disk = s.disk })
        ≡ waiting (record { lock = s.models; disk = s.disk })
      → answer f (at_models s task) ≡ waiting s
  unfolding at_models
  answer-waiting f task e = rw e refl

  module _ (libs : Libraries D) (laws : IsExclusive libs.host.locks) where
    restore_table-waiting :
        (path : String) (ms : List Model)
        → FreeLock s.models
        → restore_table libs.host path
            (model_kind libs)
            ms
            (record { lock = s.models; disk = s.disk })
          ≡ waiting (record {
            lock = record s.models { content = fill (λ (m : Model). m.name) ms []; writing = true };
            disk = s.disk;
          })
    unfolding restore_table persist
    restore_table-waiting path ms h =
        with_write-free libs.host.locks _ _ laws h.0 h.1
        ∙ ap released (with_read-held libs.host.locks _ _ laws refl)

    restore_backup-waiting :
        (b : StorageBackup) → Free s → restore_backup libs b s ≡ waiting (with_held_models b s)
    unfolding restore_backup at_models
    restore_backup-waiting b h =
        rw (restore_backup, restore_table-waiting (models_path libs s) b.models h.0) refl

    backup-waiting :
        (now : ℕ) (path : String) → s.models.writing ≡ true → backup libs now path s ≡ waiting s
    unfolding backup reading
    backup-waiting now path h =
        if_false (λ r. r ≡ waiting s)
          (libs.host.locks.grants_read s.models.readers s.models.writing) _ _
          (ap (libs.host.locks.grants_read s.models.readers) h ∙ laws.read_held s.models.readers)
          refl

    perform-waiting :
        (op : Operation)
        → takes_models op ≡ true
        → s.models.writing ≡ true
        → perform libs op s ≡ waiting s
    unfolding perform create update delete lookup
    perform-waiting (list_models ds) t h =
        answer-waiting _ _ (with_read-held libs.host.locks _ _ laws h)
    perform-waiting (get_model name ds) t h =
        answer-waiting _ _ (with_read-held libs.host.locks _ _ laws h)
    perform-waiting (create_model m) t h =
        answer-waiting _ _ (with_write-held libs.host.locks _ _ laws h)
    perform-waiting (update_model name m) t h =
        answer-waiting _ _ (with_write-held libs.host.locks _ _ laws h)
    perform-waiting (delete_model name ds) t h =
        answer-waiting _ _ (with_write-held libs.host.locks _ _ laws h)
    perform-waiting (search query limit) t h =
        answer-waiting _ _ (with_read-held libs.host.locks _ _ laws h)
    perform-waiting (backup_to now path) t h = ap (answer (λ u. done)) (backup-waiting now path h)
    perform-waiting _ t h = cc

-- A restore of a backup of version 1 never ends, if the locks are free at first: it waits for the lock of
-- the models that it holds itself, with the models of the backup in memory and nothing written; no
-- operation that takes this lock ends any more.
pub restore-waiting :
    {D : Type 0} (libs : Libraries D) (path text : String) (b : StorageBackup) (s : YamlStorage D)
    (op : Operation)
    → IsExclusive libs.host.locks
    → Free s
    → libs.host.read_to_string path s.disk ≡ ok text
    → libs.backup.parse text ≡ ok b
    → b.version ≡ "1"
    → takes_models op ≡ true
    → (restore libs path s ≡ waiting (with_held_models b s))
      × (perform libs op (with_held_models b s) ≡ waiting (with_held_models b s))
unfolding restore restore_parsed
restore-waiting libs path text b s op laws h r p v t = (
  rw (restore, restore_text, r, p)
      (if_true (λ run. run ≡ waiting (with_held_models b s)) (b.version == "1") _ _
        ((eq_iff b.version "1").1 v) (restore_backup-waiting s libs laws b h)),
  perform-waiting (with_held_models b s) libs laws op t refl,
)
