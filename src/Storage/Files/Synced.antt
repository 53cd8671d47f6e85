-- ===== src/Storage/Files/Synced.antt =====
-- The file of a map of yaml.rs has the values of the map after each change.
use graphnight.Base.{
  ◌≡◌, refl, sym, subst, String, Bool, true, false, List, [], ◌∷◌, Result, ok, err, if◌then◌else◌,
  ◌==◌, trim, All,
}
use graphnight.Storage.Backend.{StorageError}
use graphnight.Storage.Table.{Table, insert, table_values, Named, insert-Named, remove-Named}
use graphnight.Storage.Locks.{Run, waiting, finished, ◌then◌, Cell, IsExclusive}
use graphnight.Storage.Files.{
  Host, Codec, Kind, wrote, written, saved, created, create, updated, update, deleted, delete, save,
}
use graphnight.Storage.Files.Ends.{Ends, FreeCell, persist-free}
use graphnight.Storage.Files.Edits.{Edit, make, change, drop, store, edit, edit_all}
use graphnight.Storage.Files.Refines.{with_write-Ends, settled-Ends}

-- A disk that keeps what is written to a path, and a format that reads what it prints, which is not blank.
pub record IsReliable {D X : Type 0} (host : Host D) (path : String) (codec : Codec X)
    : Type 0 where
  pub writes :
      (text : String) (d : D)
      → (d' : D) × (host.write path text d ≡ (ok tt, d'))
        × (host.exists path d' ≡ true)
        × (host.read_to_string path d' ≡ ok text)
  pub prints :
      (x : X)
      → (text : String) × (codec.print x ≡ ok text)
        × ((trim text == "") ≡ false)
        × (codec.parse text ≡ ok x)

-- A change that leaves a value under its own name.
abbrev pub IsOwn : {V : Type 0} → (V → String) → Edit V → Type 0
IsOwn name (make v) = Unit
IsOwn name (change n v) = name v ≡ n
IsOwn name (drop test n) = Unit
IsOwn name (store v) = Unit

module _ {D V : Type 0} (host : Host D) (path : String) (kind : Kind V) where
  -- The file has the values of the map, or there is none of an empty map.
  pub data OnDisk : Table V → D → Type 0 where
    no_file : {d : D} → host.exists path d ≡ false → OnDisk [] d
    in_file :
        {t : Table V} {d : D} (text : String)
        → host.exists path d ≡ true
        → host.read_to_string path d ≡ ok text
        → (trim text == "") ≡ false
        → kind.codec.parse text ≡ ok (table_values t)
        → OnDisk t d

  abbrev pub Synced : {A : Type 0} → Result StorageError A → Cell (Table V) D → Type 0
  Synced r c = FreeCell c × Named kind.name c.lock.content × OnDisk c.lock.content c.disk

  abbrev held : Cell (Table V) D → Cell (Table V) D
  held c = record c { lock = record c.lock { writing = true } }

  then-Synced :
      {A B : Type 0} (run : Run (Cell (Table V) D) A) (next : A → Result StorageError B)
      → Ends Synced run
      → Ends Synced (run then λ a c. finished (next a) c)
  then-Synced (waiting c) next h = h
  then-Synced (finished (ok a) c) next h = h
  then-Synced (finished (err e) c) next h = h

  module _ (laws : IsExclusive host.locks) (reliable : IsReliable host path kind.codec) where
    saved-Synced :
        {A : Type 0} (a : A) (t : Table V) (c : Cell (Table V) D)
        → c.lock.readers ≡ 0
        → Named kind.name t
        → Ends Synced (saved host path kind a t c)
    unfolding written wrote
    saved-Synced a t c h n =
        let (text, p, blank, r) = reliable.prints (table_values t) in
        let (d, w, x, back) = reliable.writes text c.disk in
        subst (λ run. Ends Synced (run then λ u c. finished (ok a) c))
          (sym (persist-free host laws path kind.codec table_values _ (refl, h)))
          (rw (p, w) ((refl, h), n, in_file text x back blank r))

    created-Synced :
        (b : Bool) (v : V) (c : Cell (Table V) D)
        → c.lock.readers ≡ 0
        → Named kind.name c.lock.content
        → OnDisk c.lock.content c.disk
        → Ends Synced (created host path kind b v c)
    unfolding created
    created-Synced true v c h n k = ((refl, h), n, k)
    created-Synced false v c h n k = saved-Synced v _ c h (insert-Named kind.name v _ n)

    updated-Synced :
        (b : Bool) (n : String) (v : V) (c : Cell (Table V) D)
        → kind.name v ≡ n
        → c.lock.readers ≡ 0
        → Named kind.name c.lock.content
        → OnDisk c.lock.content c.disk
        → Ends Synced (updated host path kind b n v c)
    unfolding updated
    updated-Synced false n v c e h m k = ((refl, h), m, k)
    updated-Synced true n v c e h m k =
        saved-Synced v _ c h (
          subst (λ x. Named kind.name (insert x v c.lock.content)) e (insert-Named kind.name v _ m))

    deleted-Synced :
        (b : Bool) (n : String) (c : Cell (Table V) D)
        → c.lock.readers ≡ 0
        → Named kind.name c.lock.content
        → OnDisk c.lock.content c.disk
        → Ends Synced (deleted host path kind b n c)
    unfolding deleted
    deleted-Synced false n c h m k = ((refl, h), m, k)
    deleted-Synced true n c h m k = saved-Synced true _ c h (remove-Named kind.name n _ m)

    edit-Synced :
        (e : Edit V) (c : Cell (Table V) D)
        → IsOwn kind.name e
        → FreeCell c
        → Named kind.name c.lock.content
        → OnDisk c.lock.content c.disk
        → Ends Synced (edit host path kind e c)
    unfolding edit create update delete save
    edit-Synced (make v) c o h m k =
        then-Synced _ _
          (with_write-Ends host laws path kind _ c _ h (created-Synced _ v (held c) h.1 m k))
    edit-Synced (change n v) c o h m k =
        then-Synced _ _
          (with_write-Ends host laws path kind _ c _ h (updated-Synced _ n v (held c) o h.1 m k))
    edit-Synced (drop test n) c o h m k =
        then-Synced _ _
          (with_write-Ends host laws path kind _ c _ h (deleted-Synced _ n (held c) h.1 m k))
    edit-Synced (store v) c o h m k = then-Synced _ _ (
        with_write-Ends host laws path kind _ c _ h
          (saved-Synced v _ (held c) h.1 (insert-Named kind.name v _ m)))

    pub edit_all-Synced :
        (es : List (Edit V)) (c : Cell (Table V) D)
        → All (IsOwn kind.name) es
        → FreeCell c
        → Named kind.name c.lock.content
        → OnDisk c.lock.content c.disk
        → Ends Synced (edit_all host path kind es c)
    unfolding edit_all
    edit_all-Synced [] c o h m k = (h, m, k)
    edit_all-Synced (e ∷ es) c (p, o) h m k =
        settled-Ends _ _ (edit host path kind e c) _ (edit-Synced e c p h m k)
          (λ r c' s. then-Synced _ (λ rs. ok (r ∷ rs)) (edit_all-Synced es c' o s.0 s.1 s.2))
