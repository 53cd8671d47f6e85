-- ===== src/Storage/Files.antt =====
-- How crates/graphnight-storage/src/yaml.rs keeps one map and its file: what `load`, `persist_models`,
-- `create_model`, `update_model`, `delete_model`, `restore` and the operations on datasources and
-- memories have in common. The disk and the formats are interfaces.
pub mod Ends
pub mod Edits
pub mod Refines
pub mod Synced
pub mod Reload
use graphnight.Base.{
  String, Bool, true, false, Option, none, some, List, [], Result, ok, err, ◌==◌, trim, is_some,
  if◌then◌else◌,
}
use graphnight.Storage.Backend.{StorageError, io, yaml_serialization}
use graphnight.Storage.Table.{Table, find, contains_key, insert, remove, table_values, fill}
use graphnight.Storage.Locks.{
  Locks, Run, waiting, finished, ◌then◌, Cell, set_content, release, released, with_read,
  with_write,
}

-- The locks and the disk.
pub record Host (D : Type 0) : Type 0 where
  pub locks : Locks
  pub path : String → String → String
  pub exists : String → D → Bool
  pub read_to_string : String → D → Result String String
  pub write : String → String → D → Result String Unit × D

-- `to_string` and `from_str` of a format.
pub record Codec (X : Type 0) : Type 0 where
  pub print : X → Result String String
  pub parse : String → Result String X

-- What tells one of the maps from the others.
pub record Kind (V : Type 0) : Type 0 where
  pub codec : Codec (List V)
  pub name : V → String
  pub exists : String → StorageError
  pub not_found : String → StorageError

module _ {D : Type 0} (host : Host D) (path : String) where
  wrote : {V : Type 0} → Result String Unit × D → Cell V D → Run (Cell V D) Unit
  wrote (ok u, d) c = finished (ok u) (record c { disk = d })
  wrote (err e, d) c = finished (err (io e)) (record c { disk = d })

  pub written : {V : Type 0} → Result String String → Cell V D → Run (Cell V D) Unit
  unfolding wrote
  written (err e) c = finished (err (yaml_serialization e)) c
  written (ok text) c = wrote (host.write path text c.disk) c

  -- `persist_models`, `persist_datasources`, `persist_memories` and `persist_priority`.
  unfoldable pub persist : {V X : Type 0} → Codec X → (V → X) → Cell V D → Run (Cell V D) Unit
  unfolding written
  persist codec shown c =
      with_read host.locks c (λ c. written (codec.print (shown c.lock.content)) c)

  parsed : {V X : Type 0} → (X → V → V) → Result String X → Cell V D → Run (Cell V D) Unit
  parsed store (err e) c = finished (err (yaml_serialization e)) c
  parsed store (ok x) c =
      with_write host.locks c
        (λ c. finished (ok tt) (release (set_content (store x c.lock.content) c)))

  opened :
      {V X : Type 0} → Codec X → (X → V → V) → Result String String → Cell V D → Run (Cell V D) Unit
  opened codec store (err e) c = finished (err (io e)) c
  opened codec store (ok text) c =
      if trim text == "" then finished (ok tt) c else parsed store (codec.parse text) c

  -- One of the four steps of `load`.
  unfoldable pub load_file : {V X : Type 0} → Codec X → (X → V → V) → Cell V D → Run (Cell V D) Unit
  unfolding opened parsed
  load_file codec store c =
      if host.exists path c.disk
      then opened codec store (host.read_to_string path c.disk) c
      else finished (ok tt) c

  module _ {V : Type 0} (kind : Kind V) where
    abbrev pub persist_table : Cell (Table V) D → Run (Cell (Table V) D) Unit
    persist_table c = persist kind.codec table_values c

    -- What follows a change of the map: the guard is dropped, the file is written.
    abbrev pub saved : {A : Type 0} → A → Table V → Cell (Table V) D → Run (Cell (Table V) D) A
    saved a t c = persist_table (release (set_content t c)) then λ u c. finished (ok a) c

    created : Bool → V → Cell (Table V) D → Run (Cell (Table V) D) V
    created true v c = finished (err (kind.exists (kind.name v))) (release c)
    created false v c = saved v (insert (kind.name v) v c.lock.content) c

    unfoldable pub create : V → Cell (Table V) D → Run (Cell (Table V) D) V
    unfolding created
    create v c =
        with_write host.locks c (λ c. created (contains_key c.lock.content (kind.name v)) v c)

    updated : Bool → String → V → Cell (Table V) D → Run (Cell (Table V) D) V
    updated false name v c = finished (err (kind.not_found name)) (release c)
    updated true name v c = saved v (insert name v c.lock.content) c

    unfoldable pub update : String → V → Cell (Table V) D → Run (Cell (Table V) D) V
    unfolding updated
    update name v c =
        with_write host.locks c (λ c. updated (contains_key c.lock.content name) name v c)

    deleted : Bool → String → Cell (Table V) D → Run (Cell (Table V) D) Bool
    deleted false name c = finished (ok false) (release c)
    deleted true name c = saved true (remove name c.lock.content) c

    -- The test is on what is found under the name.
    unfoldable pub delete :
        (Option V → Bool) → String → Cell (Table V) D → Run (Cell (Table V) D) Bool
    unfolding deleted
    delete test name c =
        with_write host.locks c (λ c. deleted (test (find c.lock.content name)) name c)

    -- `save_memory`, which replaces what is there.
    unfoldable pub save : V → Cell (Table V) D → Run (Cell (Table V) D) V
    save v c = with_write host.locks c (λ c. saved v (insert (kind.name v) v c.lock.content) c)

    -- One of the first three steps of `restore`: the file is written before the guard is dropped.
    unfoldable pub restore_table : List V → Cell (Table V) D → Run (Cell (Table V) D) Unit
    restore_table vs c =
        with_write host.locks c
          (λ c. released (persist_table (set_content (fill kind.name vs []) c)))

-- A read of what is found under a name.
unfoldable pub lookup :
    {V D : Type 0}
    → Host D
    → (Option V → Option V)
    → String
    → Cell (Table V) D
    → Run (Cell (Table V) D) (Option V)
lookup host shown name c =
    with_read host.locks c (λ c. finished (ok (shown (find c.lock.content name))) c)
